-- ===== src/Io/SessionExamples.antt =====
-- Instances of the theorems on the sessions of lib/io.
use pipie.Prelude.{
  ℕ, ◌≡◌, refl, true, false, none, some, List, [], ◌∷◌, Bytes, text, ok, arith, length, ◌+◌,
}
use pipie.Io.Copy.{
  ReadResult, WriteResult, reader_to_conn, reader_to_writer, copy_loop, write_all, write_loop,
}
use pipie.Io.WriteOutput.{WithinChunk, WriterHeld}
use pipie.Io.CopyOutput.{delivered}
use pipie.Io.Identity.{
  Mode, port_forward_server, port_forward_client, mode_string, confirm_identity,
}
use pipie.Io.Forward.Signal.{signal_of, signal_hand_shake}
use pipie.Io.Session.{
  StreamAnswers, ForwardAnswers, SessionWorld, with_stream, pipe_inlet, pipe_outlet,
}
use pipie.Io.SessionEnds.{pipe_end_to_end}

abbrev new_session : SessionWorld
new_session = record {
  sessions = 0;
  streams = 0;
  listeners = 0;
  signals = [];
  output = [];
  started = false;
  left = false;
}

abbrev hears : Mode → StreamAnswers
hears mode = record {
  opened = none;
  written = 14;
  write_err = none;
  read = mode_string mode;
  read_err = none;
}

abbrev greets : Mode → ForwardAnswers
greets mode = record {
  stream = hears mode;
  send_err = none;
  peer_signal = ok (signal_of signal_hand_shake);
  listen_err = none;
  left_at_send = false;
}

abbrev at_server : ForwardAnswers
at_server = greets port_forward_client

abbrev at_client : ForwardAnswers
at_client = greets port_forward_server

abbrev takes_all : ℕ → Bytes → WriteResult × ℕ
takes_all calls b = (record { count = length b; error = none }, 1 + calls)

takes_all-WithinChunk : WithinChunk takes_all
takes_all-WithinChunk w b = omega arith

abbrev stdin : List ReadResult
stdin =
    record { bytes = text "hello"; error = none; peer_eof = false }
    ∷ record { bytes = text " world"; error = none; peer_eof = false }
    ∷ record { bytes = []; error = some (text "EOF"); peer_eof = false }
    ∷ []

-- The stream hands the same bytes over in other pieces.
abbrev stream : List ReadResult
stream =
    record { bytes = text "hello wo"; error = none; peer_eof = false }
    ∷ record { bytes = text "rld"; error = none; peer_eof = false }
    ∷ record { bytes = []; error = some (text "EOF"); peer_eof = false }
    ∷ []

inlet_held : WriterHeld (reader_to_conn takes_all stdin true 0).why
unfolding reader_to_conn copy_loop write_all write_loop
inlet_held = tt

outlet_held : WriterHeld (reader_to_writer takes_all stream 0).why
unfolding reader_to_writer copy_loop write_all write_loop
outlet_held = tt

identified :
    (confirm_identity Mode.pipe_inlet 14 none (mode_string Mode.pipe_outlet) none ≡ ok tt)
    × (confirm_identity Mode.pipe_outlet 14 none (mode_string Mode.pipe_inlet) none ≡ ok tt)
unfolding confirm_identity
identified = (refl, refl)

carried :
    delivered false stream
    ≡ (pipe_inlet takes_all stdin 0 (hears Mode.pipe_outlet) new_session).1.output
unfolding pipe_inlet with_stream delivered reader_to_conn copy_loop write_all write_loop
    confirm_identity
carried = refl

pipe_end_to_end_example :
    (pipe_outlet takes_all stream 0 (hears Mode.pipe_inlet) new_session).1.output
    ≡ delivered true stdin
pipe_end_to_end_example =
    pipe_end_to_end takes_all takes_all stdin stream 0 0 (hears Mode.pipe_outlet)
      (hears Mode.pipe_inlet) new_session takes_all-WithinChunk takes_all-WithinChunk inlet_held
      outlet_held refl refl refl identified.0 identified.1 carried
