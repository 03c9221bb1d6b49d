-- ===== src/Io/SessionEnds.antt =====
-- What the sessions of lib/io leave behind, and what a pipe carries from end to end.

use pipie.Prelude.{
  ◌≡◌, ◌↔◌, ◌∙◌, inl, inr, true, false, Option, none, some, List, [], Bytes, arith, Outcome, ok,
  Outcome-cases,
}
use pipie.Io.Copy.{ReadResult, WriteResult, reader_to_conn, reader_to_writer}
use pipie.Io.WriteOutput.{WithinChunk, WriterHeld}
use pipie.Io.CopyOutput.{delivered, reader_to_conn-delivers}
use pipie.Io.Identity.{Mode, port_forward_server, port_forward_client}
use pipie.Io.Forward.Signal.{PortForwardSignal, check_hand_shake}
use pipie.Io.Session.{
  StreamAnswers, ForwardAnswers, SessionWorld, identify, pipe_inlet, pipe_outlet,
  forward_port_client, forward_port_server,
}

-- The command stream and the listener are closed again.
abbrev pub Closes : SessionWorld → SessionWorld → Type 0
Closes w v = (v.streams ≡ w.streams) × (v.listeners ≡ w.listeners)

abbrev pub IsReturned {ℓ} : {A : Type ℓ} → Option A → Type 0
IsReturned none = ⊥
IsReturned (some a) = Unit

-- A port forward closes what it opened, keeps the session, and returns exactly if no goroutine is left.
pub record Leaves (a : ForwardAnswers) (w : SessionWorld)
    (end : Option (Outcome (Unit {0})) × SessionWorld) : Type 0 where
  pub closed : Closes w end.1
  pub session : end.1.sessions ≡ w.sessions
  pub hangs : end.1.left ≡ true → end.0 ≡ none
  pub ends : end.1.left ≡ false → IsReturned end.0
  pub reason : end.1.left ≡ true → (a.left_at_send ≡ true) × (end.1.started ≡ true)

-- However a port forward ends, on either side.
pub forward_port_client-Leaves :
    (a : ForwardAnswers) (w : SessionWorld) → w.left ≡ false → Leaves a w (forward_port_client a w)
unfolding forward_port_client
forward_port_client-Leaves a w fresh = record {
  closed = ground (arith, fresh);
  session = ground (arith, fresh);
  hangs = λ q. ground (arith, fresh, q);
  ends = λ q. ground (arith, fresh, q);
  reason = λ q. ground (arith, fresh, q);
}

pub forward_port_server-Leaves :
    (a : ForwardAnswers) (w : SessionWorld) → w.left ≡ false → Leaves a w (forward_port_server a w)
unfolding forward_port_server
forward_port_server-Leaves a w fresh = record {
  closed = ground (arith, fresh);
  session = ground (arith, fresh);
  hangs = λ q. ground (arith, fresh, q);
  ends = λ q. ground (arith, fresh, q);
  reason = λ q. ground (arith, fresh, q);
}

-- The command stream was opened, the peer told the mode that belongs to this end's, and each end
-- greeted the other in this version of the protocol.
pub record Greeted (mode : Mode) (a : ForwardAnswers) : Type 0 where
  pub opened : a.stream.opened ≡ none
  pub identified : identify mode a.stream ≡ ok tt
  pub sent : a.send_err ≡ none
  pub signal : PortForwardSignal
  pub heard : a.peer_signal ≡ ok signal
  pub hand_shake : check_hand_shake signal ≡ ok tt

-- A port forward server that had not begun starts its main loop exactly if the two ends greeted
-- one another.
forward_port_server_iff :
    (a : ForwardAnswers) (w : SessionWorld)
    → w.started ≡ false
    → ((forward_port_server a w).1.started ≡ true) ↔ Greeted port_forward_server a
unfolding forward_port_server
forward_port_server_iff a w fresh = (
  λ e. elim (Outcome-cases a.peer_signal) [
    | inl (signal, heard) ↦ record {
      opened = ground arith;
      identified = ground arith;
      sent = ground arith;
      signal = signal;
      heard = heard;
      hand_shake = ground arith;
    }
    | inr f ↦ absurd (ground arith)
  ],
  λ g. rw (g.opened, g.identified, g.heard, g.hand_shake, g.sent),
)

-- A port forward client that had not begun starts its main loop exactly if the two ends greeted
-- one another and the listening socket was opened.
forward_port_client_iff :
    (a : ForwardAnswers) (w : SessionWorld)
    → w.started ≡ false
    → ((forward_port_client a w).1.started ≡ true)
      ↔ (Greeted port_forward_client a × (a.listen_err ≡ none))
unfolding forward_port_client
forward_port_client_iff a w fresh = (
  λ e. elim (Outcome-cases a.peer_signal) [
    | inl (signal, heard) ↦ (
      record {
        opened = ground arith;
        identified = ground arith;
        sent = ground arith;
        signal = signal;
        heard = heard;
        hand_shake = ground arith;
      },
      ground arith,
    )
    | inr f ↦ absurd (ground arith)
  ],
  λ g. rw (g.0.opened, g.0.identified, g.0.sent, g.0.heard, g.0.hand_shake, g.1),
)

reader_to_writer-delivers :
    {W : Type 0} (write : W → Bytes → WriteResult × W) (reads : List ReadResult) (w : W)
    → WithinChunk write
    → WriterHeld (reader_to_writer write reads w).why
    → (reader_to_writer write reads w).output ≡ delivered false reads
unfolding reader_to_writer reader_to_conn
reader_to_writer-delivers write reads w law held =
    reader_to_conn-delivers write false reads w law held

-- A pipe carries its input through: if both ends open the stream and tell one another their modes,
-- no write takes more than it is given or fails, and the stream hands over what was put into it,
-- then the outlet puts out exactly what the inlet took in: the bytes of its reads, in order, up to
-- the first that failed or behind which the inlet's probe found that the stream's other end is gone.
pub pipe_end_to_end :
    {V W : Type 0} (write : V → Bytes → WriteResult × V) (write' : W → Bytes → WriteResult × W)
    (stdin stream : List ReadResult) (v : V) (w : W) (a b : StreamAnswers) (start : SessionWorld)
    → WithinChunk write
    → WithinChunk write'
    → WriterHeld (reader_to_conn write stdin true v).why
    → WriterHeld (reader_to_writer write' stream w).why
    → start.output ≡ []
    → a.opened ≡ none
    → b.opened ≡ none
    → identify Mode.pipe_inlet a ≡ ok tt
    → identify Mode.pipe_outlet b ≡ ok tt
    → delivered false stream ≡ (pipe_inlet write stdin v a start).1.output
    → (pipe_outlet write' stream w b start).1.output ≡ delivered true stdin
unfolding pipe_inlet pipe_outlet
pipe_end_to_end write write' stdin stream v w a b start law law' held held' empty open_a open_b id_a
      id_b carried =
    rw (open_b, id_b, empty)
      (reader_to_writer-delivers write' stream w law' held'
        ∙ rw (open_a, id_a, empty) at carried
        ∙ reader_to_conn-delivers write true stdin v law held)
