-- ===== src/Io/Forward/Signal.antt =====
-- PortForwardSignal of lib/io/util.go and the constants of lib/io/port_forward_server.go. The
-- fields are Go ints; those that arrive are taken as numbers, of which only equality is tested.
use pipie.Prelude.{ℕ, ◌==◌, ◌&&◌, text, Outcome, ok, err, if◌then◌else◌}

pub record PortForwardSignal : Type 0 where
  pub version : ℕ
  pub kind : ℕ
  pub code : ℕ

abbrev pub protocol_version : ℕ
protocol_version = 1

abbrev pub signal_hand_shake : ℕ
signal_hand_shake = 0

abbrev pub signal_connect : ℕ
signal_connect = 1

abbrev pub signal_connect_refuse : ℕ
signal_connect_refuse = 2

abbrev pub signal_connect_agree : ℕ
signal_connect_agree = 3

abbrev pub signal_bye : ℕ
signal_bye = 4

abbrev pub code_port_refused : ℕ
code_port_refused = 1

abbrev pub code_port_timeout : ℕ
code_port_timeout = 2

-- A signal of this version with no code (CodeForbidden, 0, is what `omitempty` leaves out).
abbrev pub signal_of : ℕ → PortForwardSignal
signal_of kind = record { version = protocol_version; kind = kind; code = 0 }

-- The check of the peer's handshake, on both sides.
unfoldable pub check_hand_shake : PortForwardSignal → Outcome (Unit {0})
check_hand_shake s =
    if s.version == protocol_version && s.kind == signal_hand_shake
    then ok tt
    else err (text "command channel handshake failed")
