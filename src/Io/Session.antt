-- ===== src/Io/Session.antt =====
-- PipeInlet and PipeOutlet (lib/io/pipe_inlet.go, pipe_outlet.go) and the setup of ForwardPortClient
-- and ForwardPortServer (lib/io/port_forward_client.go, port_forward_server.go): a stream of the
-- session is opened, the two ends tell each other their modes, and the work starts. The deferred
-- calls are `with_stream`, `with_listener` and `with_tomb`.
use pipie.Prelude.{
  ℕ, suc, ◌-◌, Bool, true, Option, none, some, List, [], ◌∷◌, ◌++◌, Bytes, Action, Outcome, ok, err,
  lift, if◌then◌else◌, ◌>>=◌, ◌>>◌,
}
use pipie.Io.Copy.{ReadResult, WriteResult, reader_to_conn, reader_to_writer}
use pipie.Io.Identity.{Mode, port_forward_server, port_forward_client, confirm_identity}
use pipie.Io.Forward.Signal.{PortForwardSignal, signal_of, signal_hand_shake, check_hand_shake}

-- What the calls on the stream return: Open or Accept fails or not, the mode is written, and the
-- peer's mode is read.
pub record StreamAnswers : Type 0 where
  pub opened : Option Bytes
  pub written : ℕ
  pub write_err : Option Bytes
  pub read : Bytes
  pub read_err : Option Bytes

-- The answers of the command channel and of net.Listen, and whether, when the main loop has returned,
-- a goroutine of the tomb is at its send to the loop (a signal on commandReadC or a connection on
-- connReadC), which nobody receives any more.
pub record ForwardAnswers : Type 0 where
  pub stream : StreamAnswers
  pub send_err : Option Bytes
  pub peer_signal : Outcome PortForwardSignal
  pub listen_err : Option Bytes
  pub left_at_send : Bool

-- The sessions, streams and listeners that are open, the signals that were sent, what a pipe copied, and
-- whether the work was started, and whether a goroutine of a
-- tomb is left that never ends.
pub record SessionWorld : Type 0 where
  pub sessions : ℕ
  pub streams : ℕ
  pub listeners : ℕ
  pub signals : List PortForwardSignal
  pub output : Bytes
  pub started : Bool
  pub left : Bool

unfoldable pub with_stream :
    Option Bytes → Action SessionWorld (Unit {0}) → Action SessionWorld (Unit {0})
with_stream (some e) body w = (err e, w)
with_stream none body w =
    let (r, v) = body (record w { streams = suc w.streams }) in
    (r, record v { streams = v.streams - 1 })

unfoldable pub with_listener :
    Option Bytes → Action SessionWorld (Unit {0}) → Action SessionWorld (Unit {0})
with_listener (some e) body w = (err e, w)
with_listener none body w =
    let (r, v) = body (record w { listeners = suc w.listeners }) in
    (r, record v { listeners = v.listeners - 1 })

-- The block "confirm each side identity".
abbrev pub identify : Mode → StreamAnswers → Outcome (Unit {0})
identify mode a = confirm_identity mode a.written a.write_err a.read a.read_err

abbrev copies : Bytes → Action SessionWorld (Unit {0})
copies b w = (ok tt, record w { output = w.output ++ b; started = true })

module _ {W : Type 0} (write : W → Bytes → WriteResult × W) (reads : List ReadResult) (w : W) where
  -- The session lasts until the copy is over or the context ends, where the reads end; it returns nil.
  unfoldable pub pipe_inlet : StreamAnswers → Action SessionWorld (Unit {0})
  unfolding with_stream
  pipe_inlet a =
      with_stream a.opened
        (do lift (identify Mode.pipe_inlet a); copies (reader_to_conn write reads true w).output)

  unfoldable pub pipe_outlet : StreamAnswers → Action SessionWorld (Unit {0})
  unfolding with_stream
  pipe_outlet a =
      with_stream a.opened
        (do lift (identify Mode.pipe_outlet a); copies (reader_to_writer write reads w).output)

abbrev sends : Option Bytes → Action SessionWorld (Unit {0})
sends (some e) w = (err e, w)
sends none w = (ok tt, record w { signals = w.signals ++ (signal_of signal_hand_shake ∷ []) })

-- The goroutines and the main loop, whose result is not looked at.
abbrev runs : Bool → Action SessionWorld (Unit {0})
runs left_at_send w = (ok tt, record w { started = true; left = left_at_send })

-- The deferred t.Kill and t.Wait, behind the other deferred calls: `none` is that t.Wait never
-- returns. The closes of the stream and of the listener end a goroutine that reads or accepts.
unfoldable pub with_tomb :
    Action SessionWorld (Unit {0}) → SessionWorld → Option (Outcome (Unit {0})) × SessionWorld
with_tomb body w = let (r, v) = body w in ((if v.left then none else some r), v)

-- The client greets first.
unfoldable pub forward_port_client :
    ForwardAnswers → SessionWorld → Option (Outcome (Unit {0})) × SessionWorld
unfolding with_tomb with_stream with_listener
forward_port_client a = with_tomb (
    with_stream a.stream.opened (do
      lift (identify port_forward_client a.stream)
      sends a.send_err
      signal ← lift a.peer_signal
      lift (check_hand_shake signal)
      with_listener a.listen_err (runs a.left_at_send)))

unfoldable pub forward_port_server :
    ForwardAnswers → SessionWorld → Option (Outcome (Unit {0})) × SessionWorld
unfolding with_tomb with_stream
forward_port_server a = with_tomb (
    with_stream a.stream.opened (do
      lift (identify port_forward_server a.stream)
      signal ← lift a.peer_signal
      lift (check_hand_shake signal)
      sends a.send_err
      runs a.left_at_send))
