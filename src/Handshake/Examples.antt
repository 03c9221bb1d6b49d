-- ===== src/Handshake/Examples.antt =====
-- An exchange over a codec of a toy kind, from a daemon that has just started.
use pipie.Prelude.{
  refl, true, false, some, replicate, length-replicate, text, Outcome, ok, suc, Bool, Bytes, [],
}
use pipie.Platform.{Url}
use pipie.Platform.Codec.{codec}
use pipie.Keys.{challenge_token_size, payload_nonce_size}
use pipie.Pair.Builder.{PairConnectionConfig}
use pipie.Client.Exchanges.{Client}
use pipie.Client.Tasks.{Task, port_forward_to_client}
use pipie.CommandLine.{
  Arguments, Command, daemon_command, client_command, Call, mode_port_forward, service_settings,
  server_permission,
}
use pipie.Daemon.State.{Entropy}
use pipie.Daemon.Handle.{relay_address}
use pipie.Daemon.Loop.{DaemonServiceConfig, new_world}
use pipie.Handshake.Laws.{Steady}
use pipie.Handshake.Messages.{Drawn, Messages}
use pipie.Handshake.ClientRun.{drawn_with}
use pipie.Handshake.Completes.{Completes}

abbrev counting : Entropy
counting n size = some (replicate size n)

abbrev counting-Steady : Steady counting
counting-Steady = record {
  draw = λ n size. replicate size n;
  gives = λ n size. refl;
  sized = λ n size. length-replicate size n;
}

abbrev no_pipe : PairConnectionConfig → Outcome (Unit {0})
no_pipe config = ok tt

abbrev settings : DaemonServiceConfig
settings = record {
  rendezvous_server = text "pipie.mingc.net:7890";
  cert = text "server";
  cert_hash = replicate 32 7;
  force_relay = false;
}

abbrev somebody : Client
somebody = record {
  username = text "somebody";
  access_key = text "key";
  cert = some (text "client");
  force_relay = false;
}

abbrev forward : Task
forward = port_forward_to_client (text "localhost") 8080 (text "10.0.0.7") 22

abbrev relay_url : Url
relay_url = record { string = relay_address }

-- The same from two command lines.
abbrev arguments : Bool → Bytes → Arguments
arguments as_server forward_addresses = record {
  mode = mode_port_forward;
  reverse_forward = false;
  forward_addresses = forward_addresses;
  as_server = as_server;
  force_relay = false;
  user_name = text "somebody";
  access_key = text "key";
  signal_server = text "pipie.mingc.net:4567";
  rendezvous_server = text "pipie.mingc.net:7890";
}

abbrev server_arguments : Arguments
server_arguments = arguments true []

abbrev client_arguments : Arguments
client_arguments = arguments false (text "localhost:8080:10.0.0.7:22")

abbrev call_of : Bytes → Arguments → Command → Call
call_of cert a what = record {
  settings = service_settings codec cert a;
  server = a.signal_server;
  username = a.user_name;
  key = a.access_key;
  what = what;
}

abbrev server_call : Call
server_call = call_of (text "server") server_arguments (daemon_command (server_permission false))

abbrev client_call : Call
client_call = call_of (text "client") client_arguments (client_command forward)

abbrev started_drawn : Drawn
started_drawn =
    drawn_with counting-Steady (counting-Steady.draw new_world.draws challenge_token_size)
      (counting-Steady.draw (suc (suc new_world.draws)) payload_nonce_size)
