-- ===== src/Io/Forward/ClientLoop.antt =====
-- PortForwardClientLoop of lib/io/port_forward_client.go. Connections are numbered. An event is
-- the case that a `select` takes, with what the calls in it return.
use pipie.Prelude.{
  ℕ, ◌==◌, Option, none, some, List, [], ◌∷◌, ◌++◌, text, Outcome, ok, err, panic, if◌then◌else◌,
}
use pipie.Io.Forward.Signal.{
  PortForwardSignal, signal_of, signal_connect, signal_connect_agree, signal_connect_refuse,
}

pub data ClientState : Type 0 where
  client_state_wait client_state_conn1 : ClientState

-- `sent` are the signals, `paired` the connections handed to startPairing, `closed` those that the
-- loop closed.
pub record ClientLoop : Type 0 where
  pub state : ClientState
  pub pending_conn : Option ℕ
  pub sent : List PortForwardSignal
  pub paired : List ℕ
  pub closed : List ℕ

unfoldable pub new_client_loop : ClientLoop
new_client_loop = record {
  state = client_state_wait;
  pending_conn = none;
  sent = [];
  paired = [];
  closed = [];
}

-- The select of ClientStateWait; a connection comes with the outcome of SendSignal.
pub data WaitEvent : Type 0 where
  dying command_closed conn_closed : WaitEvent
  command : PortForwardSignal → WaitEvent
  conn : ℕ → Outcome (Unit {0}) → WaitEvent

-- The select of ClientStateConn1, which takes no connection.
pub data Conn1Event : Type 0 where
  dying command_closed : Conn1Event
  command : PortForwardSignal → Conn1Event

-- One round of the loop: it goes on, or returns.
pub data Round (S : Type 0) : Type 0 where
  next : S → Round S
  returned : S → Outcome (Unit {0}) → Round S

-- The deferred close of a pending connection.
unfoldable pub close_pending : Option ℕ → ClientLoop → ClientLoop
close_pending none l = l
close_pending (some c) l = record l { closed = l.closed ++ (c ∷ []) }

unfoldable pub leave : ClientLoop → Outcome (Unit {0}) → Round ClientLoop
unfolding close_pending
leave l r = returned (close_pending l.pending_conn l) r

unfoldable pub wait_step : ClientLoop → WaitEvent → Round ClientLoop
unfolding leave
wait_step l WaitEvent.dying = leave l (ok tt)
wait_step l WaitEvent.command_closed = leave l (ok tt)
wait_step l conn_closed = leave l (ok tt)
wait_step l (WaitEvent.command s) = leave l (ok tt)
wait_step l (conn c (ok sent)) = next (record l {
  sent = l.sent ++ (signal_of signal_connect ∷ []);
  pending_conn = some c;
  state = client_state_conn1;
})
wait_step l (conn c (err e)) = leave l (err e)
wait_step l (conn c (panic e)) = leave l (panic e)

-- `_pendingConn` goes to startPairing as it is, and a nil one is closed with a panic.
abbrev start_pairing : Option ℕ → ClientLoop → ClientLoop
start_pairing none l = l
start_pairing (some c) l = record l { paired = l.paired ++ (c ∷ []) }

abbrev refused : Option ℕ → ClientLoop → Round ClientLoop
refused none l =
    returned (record l { state = client_state_wait })
      (panic (text "invalid memory address or nil pointer dereference"))
refused (some c) l =
    next
      (record l { state = client_state_wait; closed = l.closed ++ (c ∷ []); pending_conn = none })

unfoldable pub conn1_step : ClientLoop → Conn1Event → Round ClientLoop
unfolding leave
conn1_step l Conn1Event.dying = leave l (ok tt)
conn1_step l Conn1Event.command_closed = leave l (ok tt)
conn1_step l (Conn1Event.command s) =
    if s.kind == signal_connect_agree
    then next
        (record (start_pairing l.pending_conn l) { state = client_state_wait; pending_conn = none })
    else if s.kind == signal_connect_refuse
    then refused l.pending_conn l
    else leave l (ok tt)
