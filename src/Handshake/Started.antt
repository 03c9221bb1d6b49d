-- ===== src/Handshake/Started.antt =====
-- The exchange of a server and a client as TestMain of cmd/pipie/main.go starts them from their
-- arguments.
use pipie.Prelude.{◌≡◌, some, Bytes, ok}
use pipie.Platform.{Platform}
use pipie.Permission.{Checker}
use pipie.Client.Exchanges.{Client}
use pipie.CommandLine.{Arguments, Call, command, service_settings}
use pipie.Daemon.State.{Daemon}
use pipie.Daemon.Loop.{new_daemon}
use pipie.Handshake.Messages.{Messages}
use pipie.Handshake.Completes.{Completes}

-- What PipeClient, PortForwardToClient and PortForwardFromClient are given.
unfoldable pub client_of : Call → Client
client_of c = record {
  username = c.username;
  access_key = c.key;
  cert = some c.settings.cert;
  force_relay = c.settings.force_relay;
}

-- The daemon of the call of DaemonLoop.
unfoldable pub daemon_of : Platform → Call → Checker → Daemon
daemon_of p c checker = new_daemon p c.settings c.username c.key checker

record Started (p : Platform) (cert : Bytes) (a : Arguments) (c : Call) : Type 0 where
  settings : c.settings ≡ service_settings p cert a
  username : c.username ≡ a.user_name
  key : c.key ≡ a.access_key
  commanded : command a ≡ ok c.what
