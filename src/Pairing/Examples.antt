-- ===== src/Pairing/Examples.antt =====
-- Instances of the theorems on the two ends' configurations.
use pipie.Prelude.{
  ◌≡◌, ◌≢◌, ◌++◌, refl, true, false, none, some, [], text, replicate, ok, Bytes, length,
  length-replicate, ◌↔◌,
}
use pipie.Platform.{Url}
use pipie.Platform.Toy.{toy}
use pipie.Keys.{generate_pair_conn_key}
use pipie.Pair.Builder.{
  PairConnectionConfig, new_pair_conn_config_builder, set_pair_id_and_key, set_rendezvous_server,
  set_tls, set_relay_perm, set_relay_temp, set_force_relay, build,
}
use pipie.Pair.Connect.{
  Answers, Secured, udp_failed, tcp_nothing, relayed_permanent, relayed_temporary, tls_server,
  tls_client, connect_to, tls_role, carrier, direct_or_relay, relay_or, relay, join,
}
use pipie.Pair.Roles.{both_relayed}
use pipie.Daemon.State.{Daemon, Entropy}
use pipie.Daemon.Confirm.{service_config}
use pipie.Client.Exchanges.{Client, client_config}
use pipie.Pair.Identity.{handshake_magic, tls_identity_check, identity_sent}
use pipie.Pair.OneByte.{one_byte, unread, one_byte-Streams}
use pipie.Pairing.{configs-opposite_roles}
use pipie.Pairing.Authenticates.{TellsApart, configs-authenticate}

abbrev no_entropy : Entropy
no_entropy n size = none

abbrev server : Daemon
server = record {
  transfer_code = replicate 32 5;
  signal_encryption_hash = replicate 32 8;
  access_key = text "key";
  permission = record {
    register = record {
      pipe_out_allow = true;
      forward_allow = 0;
      forward_host = [];
      forward_port = 0;
    };
  };
  cert = some (text "server cert");
  cert_hash = replicate 32 9;
  force_relay = false;
}

abbrev user : Client
user = record {
  username = text "user";
  access_key = text "key";
  cert = some (text "user cert");
  force_relay = true;
}

abbrev some_relay : Url
some_relay = record { string = text "relay://host" }

abbrev ours : PairConnectionConfig
ours = record {
  conn_builder = record {
    pair_id = text "pair";
    key = toy.sha256 (text "secret" ++ text "key");
    server_address = text "pipie.mingc.net:7890";
    udp_connection = true;
    relay_pool = some some_relay;
    force_relay = false;
    peer_device_id = none;
    cert = some (text "server cert");
  };
  polarity = true;
}

abbrev theirs : PairConnectionConfig
theirs = record {
  conn_builder = record ours.conn_builder {
    force_relay = true;
    peer_device_id = some (text "device");
    cert = some (text "user cert");
  };
  polarity = false;
}

ours_is_built :
    service_config toy no_entropy server (text "pair") (text "secret") some_relay ≡ ok ours
unfolding service_config build set_pair_id_and_key set_rendezvous_server set_tls set_relay_perm
    set_force_relay new_pair_conn_config_builder generate_pair_conn_key
ours_is_built = refl

theirs_is_built :
    build
      (client_config toy no_entropy user (text "pair") (text "secret") some_relay (text "device"))
    ≡ ok theirs
unfolding client_config build set_pair_id_and_key set_rendezvous_server set_tls set_relay_temp
    set_force_relay new_pair_conn_config_builder generate_pair_conn_key
theirs_is_built = refl

abbrev by_relay : Answers
by_relay = record {
  udp = udp_failed (text "timeout");
  stabilify = none;
  tcp = tcp_nothing;
  new_client = none;
  client_error = none;
  invitation = true;
  get_invitation = none;
  join_session = none;
  handshake = none;
  identity = ok tt;
  mux = none;
}

abbrev our_end : Secured
our_end = record {
  carrier = record { transport = relayed_permanent; meta = none };
  role = tls_server;
}

abbrev their_end : Secured
their_end = record {
  carrier = record { transport = relayed_temporary; meta = none };
  role = tls_client;
}

ends_connect : (connect_to ours by_relay ≡ ok our_end) × (connect_to theirs by_relay ≡ ok their_end)
unfolding connect_to tls_role carrier direct_or_relay relay_or relay join
ends_connect = (refl, refl)

configs-opposite_roles_example : our_end.role ≢ their_end.role
configs-opposite_roles_example =
    configs-opposite_roles toy no_entropy server user (text "pair") (text "secret") (text "device")
      some_relay ours theirs by_relay by_relay our_end their_end refl ours_is_built theirs_is_built
      ends_connect.0 ends_connect.1 both_relayed

-- What each end reads: the other's part of the identity check.
abbrev to_server : Bytes
to_server = handshake_magic ++ toy.sha512 (text "user cert" ++ theirs.conn_builder.key)

abbrev to_user : Bytes
to_user = handshake_magic ++ toy.sha512 (text "server cert" ++ ours.conn_builder.key)

toy-TellsApart :
    TellsApart toy no_entropy server user
      (text "pair")
      (text "secret")
      (text "device")
      some_relay
      ours
      theirs
      one_byte
      unread
      one_byte-Streams
      (text "server cert")
      (text "user cert")
unfolding generate_pair_conn_key
toy-TellsApart = record {
  sums = λ b. length-replicate 64 (length b);
  by_their_cert = λ e. refl;
  by_our_cert = λ e. refl;
  derived = λ e. refl;
}

is_sent :
    (unread to_server ≡ identity_sent toy (text "user cert") theirs.conn_builder.key ++ [])
    × (unread to_user ≡ identity_sent toy (text "server cert") ours.conn_builder.key ++ [])
unfolding identity_sent
is_sent = (refl, refl)

configs-authenticate_example :
    ((tls_identity_check one_byte toy (text "user cert") ours.conn_builder.key none to_server
        ≡ ok tt)
      ↔ (user.access_key ≡ server.access_key))
    × ((tls_identity_check one_byte toy (text "server cert") theirs.conn_builder.key none to_user
          ≡ ok tt)
        ↔ (user.access_key ≡ server.access_key))
configs-authenticate_example =
    configs-authenticate toy no_entropy server user (text "pair") (text "secret") (text "device")
      some_relay ours theirs one_byte unread one_byte-Streams (text "server cert")
      (text "user cert") to_server to_user [] [] ours_is_built theirs_is_built toy-TellsApart
      is_sent.0 is_sent.1
