-- ===== src/Daemon/Loop.antt =====
-- DaemonLoop of internal/pipie/daemon.go: what a daemon is made from, and its receive loop.
use pipie.Prelude.{
  Bool, true, false, Option, none, some, List, [], ◌∷◌, Bytes, text, copy, contains, take,
  replicate, Outcome, if◌then◌else◌,
}
use pipie.Platform.{Platform}
use pipie.Permission.{Checker}
use pipie.Transfer.{construct_transfer_packer}
use pipie.Keys.{generate_transfer_code, generate_signal_encryption_key}
use pipie.Pair.Builder.{PairConnectionConfig}
use pipie.Daemon.State.{Daemon, World, Entropy}
use pipie.Daemon.Handle.{handle_exchange}

-- DaemonServiceConfig of internal/pipie/daemonservices.go, with a certificate that is not nil.
pub record DaemonServiceConfig : Type 0 where
  pub rendezvous_server : Bytes
  pub cert : Bytes
  pub cert_hash : Bytes
  pub force_relay : Bool

unfoldable pub new_daemon : Platform → DaemonServiceConfig → Bytes → Bytes → Checker → Daemon
new_daemon p config username access_key pmc = record {
  transfer_code = copy (replicate 32 0) (generate_transfer_code p username);
  signal_encryption_hash = copy (replicate 32 0) (generate_signal_encryption_key p username);
  access_key = access_key;
  permission = pmc;
  cert = some config.cert;
  cert_hash = copy config.cert_hash (p.sha256 config.cert);
  force_relay = config.force_relay;
}

abbrev pub new_world : World
new_world = record { token_map = []; sent = []; sessions = []; killed = false; draws = 0; now = 0 }

-- What the connection has for `conn.Read`: a datagram, or the text of an error.
pub data Read : Type 0 where
  received : Bytes → Read
  read_error : Bytes → Read

-- The packet that the ping goroutine writes every ten seconds.
unfoldable pub ping_packet : Daemon → Bytes
ping_packet d = construct_transfer_packer d.transfer_code (replicate 32 0) []

-- Whether the ping goroutine goes on after a write: an error other than "connection refused" ends it.
unfoldable pub ping_goes_on : Option Bytes → Bool
ping_goes_on none = true
ping_goes_on (some e) = contains e (text "connection refused")

-- receiveBuf[:n]: what a read into the buffer of 1500 bytes leaves of a datagram.
abbrev pub into_buffer : Bytes → Bytes
into_buffer packet = take 1500 packet

module _ (p : Platform) (rand : Entropy) (run_pipe : PairConnectionConfig → Outcome (Unit {0}))
    (d : Daemon) where
  -- Errors and panics of a handler are logged, and the loop goes on. It waits where the list ends.
  unfoldable pub daemon_loop : List Read → World → World
  daemon_loop [] w = w
  daemon_loop (received packet ∷ reads) w =
      daemon_loop reads (handle_exchange p rand run_pipe d (into_buffer packet) w).1
  daemon_loop (read_error e ∷ reads) w =
      let rest = daemon_loop reads w in if contains e (text "connection refused") then rest else w
