-- ===== src/Io/Forward/Dealer.antt =====
-- signalDealer of lib/io/util.go, GetSignal and SendSignal over a stream of bytes, and the goroutine
-- that reads the command channel, the same in lib/io/port_forward_client.go and
-- port_forward_server.go. encoding/json is a parameter.
use pipie.Prelude.{
  ℕ, zero, suc, ◌==◌, Option, none, some, List, [], ◌∷◌, ◌++◌, length, Bytes, Action, Outcome, ok,
  err, panic, lift, ◌>>=◌, if◌then◌else◌,
}
use pipie.Io.Forward.Signal.{PortForwardSignal}

-- json.Marshal and json.Unmarshal at a signal.
pub record Json : Type 0 where
  pub marshal : PortForwardSignal → Outcome Bytes
  pub unmarshal : Bytes → Outcome PortForwardSignal

-- The byte in front of what was read; nothing was, if the delimiter did not come.
abbrev pub in_front : ℕ → Option (Bytes × Bytes) → Option (Bytes × Bytes)
in_front c none = none
in_front c (some (line, rest)) = some (c ∷ line, rest)

-- bufio.Reader.ReadBytes: what comes up to the delimiter, with it, and what follows.
unfoldable pub read_bytes : ℕ → Bytes → Option (Bytes × Bytes)
read_bytes delim [] = none
read_bytes delim (c ∷ s) =
    let found = read_bytes delim s in if c == delim then some (c ∷ [], s) else in_front c found

module _ (json : Json) where
  -- `end_error` is the read error that comes behind the last byte.
  abbrev pub parse_line : Bytes → Option (Bytes × Bytes) → Outcome PortForwardSignal × Bytes
  parse_line end_error none = (err end_error, [])
  parse_line end_error (some (line, rest)) = (json.unmarshal line, rest)

  -- The state is what has yet to be read.
  unfoldable pub get_signal : Bytes → Action Bytes PortForwardSignal
  unfolding read_bytes
  get_signal end_error s = parse_line end_error (read_bytes 10 s)

  -- The write or the flush fails with a panic; what it has written by then is not recorded.
  abbrev pub write_line : Option Bytes → Option Bytes → Bytes → Action Bytes (Unit {0})
  write_line (some e) flush_error line w = (panic e, w)
  write_line none (some e) line w = (panic e, w)
  write_line none none line w = (ok tt, w ++ line)

  -- The state is what has been written.
  unfoldable pub send_signal :
      Option Bytes → Option Bytes → PortForwardSignal → Action Bytes (Unit {0})
  send_signal write_error flush_error signal = do
    signal_bytes ← lift (json.marshal signal)
    write_line write_error flush_error (signal_bytes ++ (10 ∷ []))

  -- What the goroutine has put into the channel, and the error that ended it; `none` is that the
  -- fuel was spent.
  pub record Pumped : Type 0 where
    pub delivered : List PortForwardSignal
    pub ended : Option Bytes

  -- Every error ends the loop, whatever its text.
  abbrev pub pump : Outcome PortForwardSignal → Pumped → Pumped
  pump (ok signal) more = record { delivered = signal ∷ more.delivered; ended = more.ended }
  pump (err e) more = record { delivered = []; ended = some e }
  pump (panic e) more = record { delivered = []; ended = some e }

  unfoldable pub read_commands : Bytes → ℕ → Bytes → Pumped
  unfolding get_signal
  read_commands end_error zero s = record { delivered = []; ended = none }
  read_commands end_error (suc fuel) s =
      let (r, rest) = get_signal end_error s in
      let more = read_commands end_error fuel rest in pump r more

  -- Each round but the last takes a byte at least.
  unfoldable pub command_reader : Bytes → Bytes → Pumped
  unfolding read_commands
  command_reader end_error s = read_commands end_error (suc (length s)) s
