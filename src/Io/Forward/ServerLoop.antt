-- ===== src/Io/Forward/ServerLoop.antt =====
-- PortForwardServerLoop of lib/io/port_forward_server.go.
use pipie.Prelude.{
  ℕ, ◌==◌, Bool, Option, none, some, List, [], ◌∷◌, ◌++◌, Outcome, ok, err, panic, if◌then◌else◌,
}
use pipie.Io.Forward.Signal.{
  PortForwardSignal, protocol_version, signal_of, signal_connect, signal_connect_agree,
  signal_connect_refuse, signal_bye, code_port_timeout, code_port_refused,
}
use pipie.Io.Forward.ClientLoop.{Round, next, returned}

-- What the loop has sent and the connections whose pairing it has started; `agreed` is one that it
-- has sent the agreement for and whose pairing is the next thing it starts.
pub record ServerLoop : Type 0 where
  pub sent : List PortForwardSignal
  pub paired : List ℕ
  pub agreed : Option ℕ

abbrev pub new_server_loop : ServerLoop
new_server_loop = record { sent = []; paired = []; agreed = none }

-- net.Dial to the destination: a connection, or an error that is a timeout or not.
pub data Dial : Type 0 where
  dialed : ℕ → Dial
  dial_failed : Bool → Dial

-- The case of the select; a signal comes with the outcomes of the calls that its handling may make.
pub data ServerEvent : Type 0 where
  dying command_closed : ServerEvent
  command : PortForwardSignal → Dial → Outcome (Unit {0}) → ServerEvent

abbrev pub refusal_of : Bool → PortForwardSignal
refusal_of timeout = record {
  version = protocol_version;
  kind = signal_connect_refuse;
  code = if timeout then code_port_timeout else code_port_refused;
}

-- SendSignal, whose error is turned into a panic by errorAssert, and what follows it.
abbrev send_then : Outcome (Unit {0}) → ServerLoop → ServerLoop → Round ServerLoop
send_then (ok sent) failed done = next done
send_then (err e) failed done = returned failed (panic e)
send_then (panic e) failed done = returned failed (panic e)

unfoldable pub answer_connect : ServerLoop → Dial → Outcome (Unit {0}) → Round ServerLoop
answer_connect l (dialed c) send =
    send_then send l
      (record l { sent = l.sent ++ (signal_of signal_connect_agree ∷ []); agreed = some c })
answer_connect l (dial_failed timeout) send =
    send_then send l (record l { sent = l.sent ++ (refusal_of timeout ∷ []) })

abbrev paired_with : Option ℕ → ServerLoop → ServerLoop
paired_with none l = l
paired_with (some c) l = record l { paired = l.paired ++ (c ∷ []); agreed = none }

-- t.Go behind the agreement
unfoldable pub go_pairing : ServerLoop → ServerLoop
go_pairing l = paired_with l.agreed l

-- A signal that is neither a connect nor a bye is ignored.
unfoldable pub server_step : ServerLoop → ServerEvent → Round ServerLoop
unfolding answer_connect
server_step l dying = returned l (ok tt)
server_step l command_closed = returned l (ok tt)
server_step l (command s dial send) =
    if s.kind == signal_connect
    then answer_connect l dial send
    else if s.kind == signal_bye
    then returned l (ok tt)
    else next l
