-- ===== src/Client/Examples.antt =====
-- An instance of the theorem on the client.
use pipie.Prelude.{
  zero, suc, ◌≡◌, refl, true, false, Option, none, some, [], ◌∷◌, ◌++◌, take, replicate, Bytes,
  text, ok, bytes_equal, copy,
}
use pipie.Platform.{Platform}
use pipie.Platform.Toy.{toy}
use pipie.Transfer.{construct_transfer_packer}
use pipie.Exchange.{ExchangeFrame, pipe_out, challenge, confirm}
use pipie.Keys.{
  generate_encryption_nonce, generate_pair_conn_key, generate_transfer_code,
  generate_signal_encryption_key, exchange_decrypt, exchange_encrypt, construct_encrypted_payload,
}
use pipie.Pair.Builder.{
  PairConnectionConfig, new_pair_conn_config_builder, set_pair_id_and_key, set_rendezvous_server,
  set_tls, set_relay_temp, set_force_relay,
}
use pipie.Daemon.State.{Entropy}
use pipie.Daemon.Loop.{Read, received}
use pipie.Client.Exchanges.{
  Client, ClientWorld, client, client_config, client_exchange, respond, receive_exchange,
  send_exchange, open_confirmation, accept_confirmation, client_close, client_random, client_read,
  client_write,
}
use pipie.Client.Verified.{Verified, client-Verified}

abbrev parse_exchange : Bytes → ExchangeFrame × Option Bytes
parse_exchange (zero ∷ rest) = (record { exchange_body = some (challenge (take 4 rest) []) }, none)
parse_exchange (suc n ∷ rest) =
    (record { exchange_body = some (confirm (take 4 rest) [] []) }, none)
parse_exchange [] = (record { exchange_body = none }, some (text "malformed"))

-- The toy platform with the daemon's messages, which agrees whatever it decrypts.
abbrev agreeing : Platform
agreeing = record toy {
  unmarshal_exchange = parse_exchange;
  unmarshal_confirm = λ b. (
    record {
      result = some true;
      message = none;
      signature = some (text "device");
      relay = some (text "relay://host");
      pair_id = some (text "pair");
    },
    none,
  );
}

abbrev counting : Entropy
counting n size = some (replicate size n)

abbrev user : Client
user = record {
  username = text "user";
  access_key = text "key";
  cert = some (text "cert");
  force_relay = false;
}

abbrev first : Read
first = received (replicate 65 0 ++ (0 ∷ text "abcd"))

abbrev second : Read
second = received (replicate 65 0 ++ (1 ∷ text "abcd"))

-- The receive buffer is a short one here.
abbrev short_buffer : ClientWorld
short_buffer = record { sent = []; draws = 0; receive_buf = replicate 70 0; closed = false }

abbrev user_config : PairConnectionConfig
user_config = record {
  conn_builder = record {
    pair_id = text "pair";
    key = agreeing.sha256 (replicate 32 2 ++ text "key");
    server_address = text "pipie.mingc.net:7890";
    udp_connection = true;
    relay_pool = some (record { string = text "relay://host" });
    force_relay = false;
    peer_device_id = some (text "device");
    cert = some (text "cert");
  };
  polarity = false;
}

user_connects :
    (client agreeing counting user first second pipe_out short_buffer).0 ≡ ok user_config
unfolding client client_config client_exchange respond receive_exchange send_exchange
    open_confirmation accept_confirmation client_close client_random client_read client_write
    generate_encryption_nonce generate_pair_conn_key generate_transfer_code
    generate_signal_encryption_key exchange_decrypt exchange_encrypt construct_encrypted_payload
    construct_transfer_packer new_pair_conn_config_builder set_pair_id_and_key set_rendezvous_server
    set_tls set_relay_temp set_force_relay bytes_equal copy
user_connects = refl

client-Verified_example : Verified agreeing counting user short_buffer first second user_config
client-Verified_example =
    client-Verified agreeing counting user first second pipe_out short_buffer user_config
      user_connects
