-- ===== src/Io/Examples.antt =====
-- Instances of the theorems on copies and on the identities of the two ends of a stream.
use pipie.Prelude.{
  ℕ, ◌+◌, ◌≡◌, ◌≢◌, none, some, true, false, List, [], ◌∷◌, Bytes, text, length, arith,
  if◌then◌else◌, ltb,
}
use pipie.Io.Copy.{
  ReadResult, WriteResult, Why, fuel, reader_to_conn, copy_loop, write_all, write_loop,
}
use pipie.Io.WriteOutput.{WithinChunk, WriterHeld}
use pipie.Io.CopyOutput.{Begins, delivered, reader_to_conn-Begins, reader_to_conn-delivers}

-- A writer that takes at most two bytes a call, and counts the calls.
abbrev by_two : ℕ → Bytes → WriteResult × ℕ
by_two calls b =
    (record { count = if ltb 2 (length b) then 2 else length b; error = none }, 1 + calls)

by_two-WithinChunk : WithinChunk by_two
by_two-WithinChunk w b = ground arith

abbrev reads : List ReadResult
reads =
    record { bytes = text "hello"; error = none; peer_eof = false }
    ∷ record { bytes = text ", world"; error = none; peer_eof = false }
    ∷ record { bytes = []; error = some (text "EOF"); peer_eof = false }
    ∷ []

reads_held : WriterHeld (reader_to_conn by_two reads true 0).why
unfolding reader_to_conn copy_loop write_all write_loop
reads_held = tt

reader_to_conn-Begins_example :
    ((y : Why) × ((reader_to_conn by_two reads true 0).why ≡ some y) × (y ≢ fuel))
    × Begins (reader_to_conn by_two reads true 0).output (delivered true reads)
reader_to_conn-Begins_example = reader_to_conn-Begins by_two true reads 0 by_two-WithinChunk

reader_to_conn-delivers_example : (reader_to_conn by_two reads true 0).output ≡ delivered true reads
reader_to_conn-delivers_example =
    reader_to_conn-delivers by_two true reads 0 by_two-WithinChunk reads_held
