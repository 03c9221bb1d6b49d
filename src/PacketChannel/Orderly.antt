-- ===== src/PacketChannel/Orderly.antt =====
-- What the clients of a packet channel get, in every order of events.
use pipie.Prelude.{
  ℕ, ◌≡◌, refl, sym, ap, ◌∙◌, true, Option, none, some, List, [], ◌∷◌, ◌++◌, take, Bytes,
  append-nil,
}
use pipie.PacketChannel.{
  BufNAddr, Receipt, at_read, at_send, reader_ended, writer_ended, PacketChan, create_chan, close,
  end_round, read_round, hand_over, write_round, Event, reads, receives, sends, closes, ChanStep,
  reading, handing, writing, closing, ChanSteps, created, then_event, at_receive,
}
use pipie.PacketChannel.Traffic.{
  cut, came_in, went_out, held, came_in-append, went_out-append, offer-in_order, offer-closes,
  offer-writer,
}

-- What was delivered, with the packet that waits to be, is what came in, in order; what was written is
-- what went out; and a goroutine that has ended has closed the connection.
pub record Orderly (size : ℕ) (events : List Event) (c : PacketChan) : Type 0 where
  pub in_order : c.delivered ++ held c.reader ≡ came_in size events
  pub out_order : c.written ≡ went_out events
  pub reader_closes : c.reader ≡ reader_ended → c.closed ≡ true
  pub writer_closes : c.writer ≡ writer_ended → c.closed ≡ true

module _ (size : ℕ) (events : List Event) where
  came_in_more :
      (e : Event) (l : List BufNAddr)
      → l ≡ came_in size events ++ came_in size (e ∷ [])
      → l ≡ came_in size (events ++ (e ∷ []))
  came_in_more e l q = q ∙ sym (came_in-append size events (e ∷ []))

  went_out_more :
      (e : Event) (l : List BufNAddr)
      → l ≡ went_out events ++ went_out (e ∷ [])
      → l ≡ went_out (events ++ (e ∷ []))
  went_out_more e l q = q ∙ sym (went_out-append events (e ∷ []))

  reading-Orderly :
      (c : PacketChan) (r : Receipt)
      → c.reader ≡ at_read
      → Orderly size events c
      → Orderly size (events ++ (reads r ∷ [])) (read_round size r c)
  unfolding read_round came_in went_out
  reading-Orderly c r free o =
      let bs = take size r.datagram in
      let nothing_held : c.delivered ≡ came_in size events =
        sym (append-nil c.delivered) ∙ ap (λ u. c.delivered ++ held u) (sym free) ∙ o.in_order in
      let rest = offer-writer bs r.addr r.error c in
      record {
        in_order = came_in_more (reads r) _ (
            offer-in_order bs r.addr r.error c
            ∙ ap (λ l. l ++ cut bs r.addr) nothing_held
            ∙ ap (λ l. came_in size events ++ l) (sym (append-nil (cut bs r.addr))));
        out_order =
            went_out_more (reads r) _ (rest.0 ∙ o.out_order ∙ sym (append-nil (went_out events)));
        reader_closes = offer-closes bs r.addr r.error c;
        writer_closes = λ e. rest.2 (o.writer_closes (sym rest.1 ∙ e));
      }

  handed :
      (c : PacketChan) (packet : BufNAddr) (error : Option Bytes)
      → c.reader ≡ at_send packet error
      → Orderly size events c
      → (c.delivered ++ (packet ∷ [])) ++ [] ≡ came_in size (events ++ (receives ∷ []))
  unfolding came_in
  handed c packet error holds o = came_in_more receives _ (
      append-nil (c.delivered ++ (packet ∷ []))
      ∙ ap (λ u. c.delivered ++ held u) (sym holds)
      ∙ o.in_order
      ∙ sym (append-nil (came_in size events)))

  unsent :
      (c : PacketChan) (e : Event)
      → went_out (e ∷ []) ≡ []
      → Orderly size events c
      → c.written ≡ went_out (events ++ (e ∷ []))
  unsent c e nothing o = went_out_more e _ (
      o.out_order
      ∙ sym (append-nil (went_out events))
      ∙ ap (λ l. went_out events ++ l) (sym nothing))

  handing-Orderly :
      (c : PacketChan) (packet : BufNAddr) (error : Option Bytes)
      → c.reader ≡ at_send packet error
      → Orderly size events c
      → Orderly size (events ++ (receives ∷ [])) (hand_over packet error c)
  unfolding hand_over end_round close went_out
  handing-Orderly c packet none holds o = record {
    in_order = handed c packet none holds o;
    out_order = unsent c receives refl o;
    reader_closes = λ e. absurd (cc);
    writer_closes = o.writer_closes;
  }
  handing-Orderly c packet (some x) holds o = record {
    in_order = handed c packet (some x) holds o;
    out_order = unsent c receives refl o;
    reader_closes = λ e. refl;
    writer_closes = λ e. refl;
  }

  unread :
      (c : PacketChan) (e : Event)
      → came_in size (e ∷ []) ≡ []
      → Orderly size events c
      → c.delivered ++ held c.reader ≡ came_in size (events ++ (e ∷ []))
  unread c e nothing o = came_in_more e _ (
      o.in_order
      ∙ sym (append-nil (came_in size events))
      ∙ ap (λ l. came_in size events ++ l) (sym nothing))

  writing-Orderly :
      (c : PacketChan) (packet : BufNAddr) (error : Option Bytes)
      → c.writer ≡ at_receive
      → Orderly size events c
      → Orderly size (events ++ (sends packet error ∷ [])) (write_round packet error c)
  unfolding write_round close came_in went_out
  writing-Orderly c packet none free o = record {
    in_order = unread c (sends packet none) refl o;
    out_order = went_out_more (sends packet none) _ (ap (λ l. l ++ (packet ∷ [])) o.out_order);
    reader_closes = o.reader_closes;
    writer_closes = o.writer_closes;
  }
  writing-Orderly c packet (some x) free o = record {
    in_order = unread c (sends packet (some x)) refl o;
    out_order = unsent c (sends packet (some x)) refl o;
    reader_closes = λ e. refl;
    writer_closes = λ e. refl;
  }

  closing-Orderly :
      (c : PacketChan) → Orderly size events c → Orderly size (events ++ (closes ∷ [])) (close c)
  unfolding close came_in went_out
  closing-Orderly c o = record {
    in_order = unread c closes refl o;
    out_order = unsent c closes refl o;
    reader_closes = λ e. refl;
    writer_closes = λ e. refl;
  }

ChanStep-Orderly :
    (size : ℕ) (events : List Event) (c : PacketChan) (e : Event) (d : PacketChan)
    → ChanStep size c e d
    → Orderly size events c
    → Orderly size (events ++ (e ∷ [])) d
ChanStep-Orderly size events c _ _ (reading _ r free a) o = reading-Orderly size events c r free o
ChanStep-Orderly size events c _ _ (handing _ packet error holds) o =
    handing-Orderly size events c packet error holds o
ChanStep-Orderly size events c _ _ (writing _ packet error free a) o =
    writing-Orderly size events c packet error free o
ChanStep-Orderly size events c _ _ (closing _) o = closing-Orderly size events c o

-- In every order of events on a packet channel: what its receivers got, followed by the packet that
-- waits for the next of them, is what ReadFrom gave, cut to the buffer and without the empty ones, in
-- its order; what WriteTo took is what the senders sent without the packets that it refused, in their
-- order; and a goroutine has ended only where the connection is closed.
pub ChanSteps-Orderly :
    (size : ℕ) (events : List Event) (c : PacketChan)
    → ChanSteps size events c
    → Orderly size events c
unfolding create_chan came_in went_out
ChanSteps-Orderly size _ _ created = record {
  in_order = refl;
  out_order = refl;
  reader_closes = λ e. absurd (cc);
  writer_closes = λ e. absurd (cc);
}
ChanSteps-Orderly size _ _ (then_event e steps st) =
    ChanStep-Orderly size _ _ e _ st (ChanSteps-Orderly size _ _ steps)
