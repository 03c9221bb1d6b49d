-- ===== src/Pair/OneByte.antt =====
-- A connection of a toy kind, which hands over one byte with each read.
use pipie.Prelude.{
  ℕ, zero, suc, ◌≤◌, ◌<◌, ◌≡◌, refl, none, some, [], ◌∷◌, ◌++◌, length, Bytes, text, arith,
}
use pipie.Pair.Identity.{Reply}
use pipie.Pair.IdentityStream.{Streams}

-- A connection that hands over what the peer sent one byte at a time, and then fails.
abbrev pub one_byte : Bytes → ℕ → Reply × Bytes
one_byte c zero = (record { bytes = []; error = none }, c)
one_byte [] (suc room) = (record { bytes = []; error = some (text "EOF") }, [])
one_byte (b ∷ c) (suc room) = (record { bytes = b ∷ []; error = none }, c)

abbrev pub unread : Bytes → Bytes
unread c = c

pub one_byte-Streams : Streams one_byte unread
one_byte-Streams = record {
  next = one_byte_next;
  fits = one_byte_fits;
  moves = one_byte_moves;
  lasts = one_byte_lasts;
}
  where
    one_byte_next :
        (c : Bytes) (room : ℕ)
        → (one_byte c room).0.error ≡ none
        → c ≡ (one_byte c room).0.bytes ++ (one_byte c room).1
    one_byte_next c zero e = refl
    one_byte_next [] (suc room) e = refl
    one_byte_next (b ∷ c) (suc room) e = refl

    one_byte_fits : (c : Bytes) (room : ℕ) → length (one_byte c room).0.bytes ≤ room
    one_byte_fits c zero = omega arith
    one_byte_fits [] (suc room) = omega arith
    one_byte_fits (b ∷ c) (suc room) = omega arith

    one_byte_moves :
        (c : Bytes) (room : ℕ)
        → 0 < room
        → (one_byte c room).0.error ≡ none
        → 0 < length (one_byte c room).0.bytes
    one_byte_moves c zero h e = absurd (omega arith)
    one_byte_moves [] (suc room) h e = absurd (cc)
    one_byte_moves (b ∷ c) (suc room) h e = omega arith

    one_byte_lasts : (c : Bytes) (room : ℕ) → room ≤ length c → (one_byte c room).0.error ≡ none
    one_byte_lasts c zero h = refl
    one_byte_lasts [] (suc room) h = absurd (omega arith)
    one_byte_lasts (b ∷ c) (suc room) h = refl
