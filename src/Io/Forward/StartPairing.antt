-- ===== src/Io/Forward/StartPairing.antt =====
-- startPairing of lib/io/port_forward_server.go: the stream is accepted or opened, two goroutines
-- copy one way each, and every one of the three closes both ends in its deferred calls. Each call is a
-- step of its own. What is copied is in Io/Copy.
use pipie.Prelude.{Bool, true, false, Option, none, some, Bytes, ◌&&◌, if◌then◌else◌}

-- Where a goroutine is: in ReaderToWriter, before one of its deferred calls, or at its end.
pub data GoStage : Type 0 where
  copies before_listen_close before_conn_close before_kill ended : GoStage

-- Where startPairing is: at `<-t.Dying()`, before one of its deferred calls, or at its end.
pub data MainStage : Type 0 where
  awaits_dying closes_conn closes_listen awaits_goroutines returned : MainStage

-- The ends that have been closed, and whether the tomb is dying.
pub record Shared : Type 0 where
  pub listen_closed : Bool
  pub conn_closed : Bool
  pub dying : Bool

pub record PairingState : Type 0 where
  pub from_local : GoStage
  pub from_stream : GoStage
  pub stage : MainStage
  pub shared : Shared

abbrev all_open : Shared
all_open = record { listen_closed = false; conn_closed = false; dying = false }

-- By the error of Accept or Open. With one, only the local connection is there to be closed, and
-- there is no goroutine to wait for.
unfoldable pub start_pairing : Option Bytes → PairingState
start_pairing none = record {
  from_local = copies;
  from_stream = copies;
  stage = awaits_dying;
  shared = all_open;
}
start_pairing (some e) = record {
  from_local = ended;
  from_stream = ended;
  stage = closes_listen;
  shared = all_open;
}

-- The next step of a goroutine: the copy returns, then the deferred calls in reverse order.
unfoldable pub go_on : GoStage → Shared → GoStage × Shared
go_on copies x = (before_listen_close, x)
go_on before_listen_close x = (before_conn_close, record x { listen_closed = true })
go_on before_conn_close x = (before_kill, record x { conn_closed = true })
go_on before_kill x = (ended, record x { dying = true })
go_on ended x = (ended, x)

abbrev pub has_ended : GoStage → Bool
has_ended ended = true
has_ended _ = false

-- The next step of startPairing, which waits for the tomb to die and then for both goroutines.
unfoldable pub main_goes_on : Bool → MainStage → Shared → MainStage × Shared
main_goes_on both_ended awaits_dying x = if x.dying then (closes_conn, x) else (awaits_dying, x)
main_goes_on both_ended closes_conn x = (closes_listen, record x { conn_closed = true })
main_goes_on both_ended closes_listen x = (awaits_goroutines, record x { listen_closed = true })
main_goes_on both_ended awaits_goroutines x =
    if both_ended then (returned, x) else (awaits_goroutines, x)
main_goes_on both_ended returned x = (returned, x)

unfoldable pub local_goes_on : PairingState → PairingState
unfolding go_on
local_goes_on s =
    let (g, x) = go_on s.from_local s.shared in record s { from_local = g; shared = x }

unfoldable pub stream_goes_on : PairingState → PairingState
unfolding go_on
stream_goes_on s =
    let (g, x) = go_on s.from_stream s.shared in record s { from_stream = g; shared = x }

unfoldable pub pairing_goes_on : PairingState → PairingState
unfolding main_goes_on
pairing_goes_on s =
    let (m, x) =
      main_goes_on (has_ended s.from_local && has_ended s.from_stream) s.stage s.shared in
    record s { stage = m; shared = x }

-- The context that startPairing was given ends, which kills the tomb.
unfoldable pub parent_ends : PairingState → PairingState
parent_ends s = record s {
  shared = record {
    listen_closed = s.shared.listen_closed;
    conn_closed = s.shared.conn_closed;
    dying = true;
  };
}

pub data PairingStep (s : PairingState) : PairingState → Type 0 where
  local_moves : PairingStep s (local_goes_on s)
  stream_moves : PairingStep s (stream_goes_on s)
  main_moves : PairingStep s (pairing_goes_on s)
  parent_kills : PairingStep s (parent_ends s)

pub data PairingSteps (s : PairingState) : PairingState → Type 0 where
  no_step : PairingSteps s s
  more_steps : {t u : PairingState} → PairingSteps s t → PairingStep t u → PairingSteps s u
