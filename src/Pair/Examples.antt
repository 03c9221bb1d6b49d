-- ===== src/Pair/Examples.antt =====
-- Instances of the theorems on the identity check and on the roles of the two ends.
use pipie.Prelude.{
  ◌≡◌, ◌↔◌, refl, true, false, none, some, ◌++◌, length, Bytes, text, ok, length-replicate,
}
use pipie.Platform.Toy.{toy}
use pipie.Pair.Builder.{PairConnectionConfig}
use pipie.Pair.OneByte.{one_byte, unread, one_byte-Streams}
use pipie.Pair.Identity.{handshake_magic, tls_identity_check, identity_sent}
use pipie.Pair.IdentityStream.{tls_identity_check-same_key}
use pipie.Pair.Connect.{
  Answers, udp_failed, tcp_nothing, relayed_permanent, relayed_temporary, tls_server, tls_client,
  Secured, tls_role, connect_to, carrier, direct_or_relay, relay_or, relay, join,
}

abbrev sent : Bytes
sent = handshake_magic ++ toy.sha512 (text "cert" ++ text "key") ++ text "more"

sent_is : unread sent ≡ identity_sent toy (text "cert") (text "key") ++ text "more"
unfolding identity_sent
sent_is = refl

tls_identity_check-same_key_example :
    (tls_identity_check one_byte toy (text "cert") (text "key") none sent ≡ ok tt)
    ↔ (text "key" ≡ text "key")
tls_identity_check-same_key_example =
    tls_identity_check-same_key one_byte unread one_byte-Streams toy (text "cert") (text "key")
      (text "key") (text "more") sent (λ b. length-replicate 64 (length b)) (λ e. refl) sent_is

abbrev daemon_end : PairConnectionConfig
daemon_end = record {
  conn_builder = record {
    pair_id = text "id";
    key = text "key";
    server_address = text "server";
    udp_connection = true;
    relay_pool = some (record { string = text "relay://host" });
    force_relay = false;
    peer_device_id = none;
    cert = some (text "cert");
  };
  polarity = true;
}

abbrev client_end : PairConnectionConfig
client_end = record daemon_end { polarity = false }

-- No direct connection comes about, and the relay works.
abbrev by_relay : Answers
by_relay = record {
  udp = udp_failed (text "timeout");
  stabilify = none;
  tcp = tcp_nothing;
  new_client = none;
  client_error = none;
  invitation = true;
  get_invitation = none;
  join_session = none;
  handshake = none;
  identity = ok tt;
  mux = none;
}

abbrev daemon_secured : Secured
daemon_secured = record {
  carrier = record { transport = relayed_permanent; meta = none };
  role = tls_server;
}

abbrev client_secured : Secured
client_secured = record {
  carrier = record { transport = relayed_temporary; meta = none };
  role = tls_client;
}

daemon_connects : connect_to daemon_end by_relay ≡ ok daemon_secured
unfolding connect_to tls_role carrier direct_or_relay relay_or relay join
daemon_connects = refl

client_connects : connect_to client_end by_relay ≡ ok client_secured
unfolding connect_to tls_role carrier direct_or_relay relay_or relay join
client_connects = refl
