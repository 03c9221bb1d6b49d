-- ===== src/PacketChannel/Traffic.antt =====
-- What comes in and goes out of a packet channel by a list of events, and what one read adds to it.
use pipie.Prelude.{
  ℕ, ◌≡◌, refl, sym, ap, true, Option, none, some, List, [], ◌∷◌, ◌++◌, take, Bytes, append_assoc,
}
use pipie.PacketChannel.{
  BufNAddr, Reader, at_send, reader_ended, PacketChan, close, end_round, offer, Event, reads,
  receives, sends, closes,
}

-- The datagrams that were read, cut to the buffer, without the empty ones.
abbrev pub cut : Bytes → Bytes → List BufNAddr
cut [] addr = []
cut (b ∷ bs) addr = record { buf = b ∷ bs; addr = addr } ∷ []

unfoldable pub came_in : ℕ → List Event → List BufNAddr
came_in size [] = []
came_in size (reads r ∷ es) = cut (take size r.datagram) r.addr ++ came_in size es
came_in size (_ ∷ es) = came_in size es

-- The packets that clients sent and that WriteTo took.
unfoldable pub went_out : List Event → List BufNAddr
went_out [] = []
went_out (sends packet none ∷ es) = packet ∷ went_out es
went_out (_ ∷ es) = went_out es

abbrev pub held : Reader → List BufNAddr
held (at_send packet error) = packet ∷ []
held _ = []

pub came_in-append :
    (size : ℕ) (es fs : List Event) → came_in size (es ++ fs) ≡ came_in size es ++ came_in size fs
unfolding came_in
came_in-append size [] fs = refl
came_in-append size (reads r ∷ es) fs =
    rw (came_in-append size es fs) (sym (append_assoc _ (came_in size es) (came_in size fs)))
came_in-append size (receives ∷ es) fs = came_in-append size es fs
came_in-append size (sends p e ∷ es) fs = came_in-append size es fs
came_in-append size (closes ∷ es) fs = came_in-append size es fs

pub went_out-append : (es fs : List Event) → went_out (es ++ fs) ≡ went_out es ++ went_out fs
unfolding went_out
went_out-append [] fs = refl
went_out-append (reads r ∷ es) fs = went_out-append es fs
went_out-append (receives ∷ es) fs = went_out-append es fs
went_out-append (sends p none ∷ es) fs = ap (λ l. p ∷ l) (went_out-append es fs)
went_out-append (sends p (some e) ∷ es) fs = went_out-append es fs
went_out-append (closes ∷ es) fs = went_out-append es fs

pub offer-in_order :
    (bs addr : Bytes) (error : Option Bytes) (c : PacketChan)
    → (offer bs addr error c).delivered ++ held (offer bs addr error c).reader
      ≡ c.delivered ++ cut bs addr
unfolding end_round
offer-in_order [] addr none c = refl
offer-in_order [] addr (some e) c = refl
offer-in_order (b ∷ bs) addr error c = refl

pub offer-closes :
    (bs addr : Bytes) (error : Option Bytes) (c : PacketChan)
    → (offer bs addr error c).reader ≡ reader_ended
    → (offer bs addr error c).closed ≡ true
unfolding end_round close
offer-closes [] addr none c e = absurd (cc)
offer-closes [] addr (some x) c e = refl
offer-closes (b ∷ bs) addr error c e = absurd (cc)

pub offer-writer :
    (bs addr : Bytes) (error : Option Bytes) (c : PacketChan)
    → ((offer bs addr error c).written ≡ c.written)
      × ((offer bs addr error c).writer ≡ c.writer)
      × (c.closed ≡ true → (offer bs addr error c).closed ≡ true)
unfolding end_round close
offer-writer [] addr none c = (refl, refl, λ h. h)
offer-writer [] addr (some x) c = (refl, refl, λ h. refl)
offer-writer (b ∷ bs) addr error c = (refl, refl, λ h. h)
