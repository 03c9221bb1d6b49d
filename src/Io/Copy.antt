-- ===== src/Io/Copy.antt =====
-- ReaderToWriter and ReaderToConn of lib/io/util.go. A reader is the list of what its calls return,
-- up to where it blocks; a writer is any function that answers a call from its state. Log lines are
-- left out: every error of the reader ends the copy.
use pipie.Prelude.{
  ℕ, zero, suc, Bool, false, Option, none, some, List, [], ◌∷◌, ◌++◌, take, drop, length, Bytes,
  ◌==◌, ◌&&◌, if◌then◌else◌, ltb,
}

-- What `Read` returns, and whether the probe of the other side that follows a read finds io.EOF.
pub record ReadResult : Type 0 where
  pub bytes : Bytes
  pub error : Option Bytes
  pub peer_eof : Bool

pub record WriteResult : Type 0 where
  pub count : ℕ
  pub error : Option Bytes

-- Why a copy is over: `waiting` is a reader that blocks, `overran` the panic of `buf[written:read]`
-- after a write that took more than it was given, `fuel` a write loop that was cut short.
pub data Why : Type 0 where
  waiting peer_closed wrote_zero overran fuel : Why
  read_failed : Bytes → Why
  write_failed : Bytes → Why

-- `output` is what the writer has taken so far.
pub record Copied (W : Type 0) : Type 0 where
  pub writer : W
  pub output : Bytes
  pub why : Option Why

module _ {W : Type 0} (write : W → Bytes → WriteResult × W) where
  -- The inner loop over `buf[written:read]`: a write may take a part only.
  unfoldable pub write_loop : ℕ → W → Bytes → Bytes → Copied W
  write_loop zero w rest output = record { writer = w; output = output; why = some fuel }
  write_loop (suc f) w [] output = record { writer = w; output = output; why = none }
  write_loop (suc f) w (b ∷ bs) output =
      let rest = b ∷ bs in
      let (result, w') = write w rest in
      let taken = output ++ take result.count rest in
      let again = write_loop f w' (drop result.count rest) taken in
      elim result.error [
        | some e ↦ record { writer = w'; output = taken; why = some (write_failed e) }
        | none ↦
            if result.count == 0
            then record { writer = w'; output = taken; why = some wrote_zero }
            else if ltb (length rest) result.count
            then record { writer = w'; output = taken; why = some overran }
            else again
      ]

  -- One more round than there are bytes.
  unfoldable pub write_all : W → Bytes → Bytes → Copied W
  unfolding write_loop
  write_all w bytes output = write_loop (suc (length bytes)) w bytes output

  -- `check_write` asks for the probe, as ReaderToConn may; ReaderToWriter never does.
  unfoldable pub copy_loop : Bool → List ReadResult → W → Bytes → Copied W
  unfolding write_all
  copy_loop check_write [] w output = record { writer = w; output = output; why = some waiting }
  copy_loop check_write (r ∷ rs) w output =
      let written = write_all w r.bytes output in
      let again = copy_loop check_write rs written.writer written.output in
      elim r.error [
        | some e ↦ record { writer = w; output = output; why = some (read_failed e) }
        | none ↦
            if check_write && r.peer_eof
            then record { writer = w; output = output; why = some peer_closed }
            else elim written.why [ none ↦ again | some y ↦ written ]
      ]

  unfoldable pub reader_to_conn : List ReadResult → Bool → W → Copied W
  unfolding copy_loop
  reader_to_conn reads check_write w = copy_loop check_write reads w []

  unfoldable pub reader_to_writer : List ReadResult → W → Copied W
  unfolding copy_loop
  reader_to_writer reads w = copy_loop false reads w []
