-- ===== src/Handshake/ClientRun.antt =====
-- A client's whole run over an exchange whose messages come through.
use pipie.Prelude.{true, false, ◌≤◌, ◌≡◌, refl, some, [], ◌∷◌, length, Bytes, arith, ok}
use pipie.Platform.{Platform, Url}
use pipie.Transfer.Layout.{length-construct_transfer_packer}
use pipie.Exchange.{Intention, challenge_request}
use pipie.Keys.{payload_nonce_size, pairing_key_size, generate_transfer_code}
use pipie.Client.Exchanges.{
  Client, ClientWorld, new_client_world, client, client_exchange, client_config, client_random,
}
use pipie.Daemon.State.{Daemon, Entropy}
use pipie.Daemon.Confirm.{acceptance}
use pipie.Daemon.Loop.{received}
use pipie.Handshake.Laws.{PlatformLaws, Steady}
use pipie.Handshake.Buffer.{filled, filled_none}
use pipie.Handshake.Messages.{
  Drawn, Messages, request_packet, challenge_packet, response_packet, confirm_packet,
}
use pipie.Handshake.ClientSide.{
  receive_exchange-eq, send_exchange-eq, respond-eq, open_confirmation-eq, accept_confirmation-eq,
}

-- What a client draws, beside the token and the nonce of a daemon.
abbrev pub drawn_with : {rand : Entropy} → Steady rand → Bytes → Bytes → Drawn
drawn_with steady token reply_nonce = record {
  code = steady.draw 0 32;
  token = token;
  nonce = steady.draw 1 payload_nonce_size;
  pair_key = steady.draw 2 pairing_key_size;
  reply_nonce = reply_nonce;
}

module _ (p : Platform) (laws : PlatformLaws p) (rand : Entropy) (steady : Steady rand) (c : Client)
    (token reply_nonce : Bytes) (intention : Intention) (d : Daemon) (relay : Url)
    (pair_id id : Bytes)
    (m : Messages p c.username
      (drawn_with steady token reply_nonce)
      intention
      (acceptance d relay pair_id)) where
  code_length : length (steady.draw 0 32) ≡ 32
  code_length = steady.sized 0 32

  node_length : length (generate_transfer_code p c.username) ≡ 32
  unfolding generate_transfer_code
  node_length = laws.sum_size c.username

  -- The client's world when the challenge has been read.
  abbrev challenged_world : ClientWorld
  challenged_world = record {
    sent = request_packet p c.username m ∷ [];
    draws = 1;
    receive_buf = filled 1500 (challenge_packet p c.username m);
    closed = false;
  }

  abbrev last_world : ClientWorld
  last_world = record {
    sent = request_packet p c.username m ∷ (response_packet p c.username m ∷ []);
    draws = 3;
    receive_buf = filled 1500 (confirm_packet p c.username m);
    closed = true;
  }

  challenge_fits :
      (length (challenge_packet p c.username m) ≤ length (confirm_packet p c.username m))
      × (length (confirm_packet p c.username m) ≤ 1500)
  challenge_fits =
      let node = generate_transfer_code p c.username in
      let code = steady.draw 0 32 in
      (
        omega (
          arith,
          length-construct_transfer_packer node code m.challenge_bytes,
          length-construct_transfer_packer node code m.confirm_bytes,
          m.longer,
        ),
        omega (arith, length-construct_transfer_packer node code m.confirm_bytes, m.confirm_fits),
      )

  second_half :
      p.parse_url relay.string ≡ ok relay
      → p.device_id_from_bytes d.cert_hash ≡ some id
      → client_exchange p rand c
          (steady.draw 0 32)
          token
          (received (confirm_packet p c.username m))
          intention
          challenged_world
        ≡ (
          ok (client_config p rand c pair_id (steady.draw 2 pairing_key_size) relay id),
          last_world,
        )
  unfolding client_exchange client_random
  second_half u i =
      let code = steady.draw 0 32 in
      let nonce = steady.draw 1 payload_nonce_size in
      let pair_key = steady.draw 2 pairing_key_size in
      let drawn_all = record challenged_world { draws = 3 } in
      let responded = record drawn_all { sent = last_world.sent } in
      let read = record responded { receive_buf = last_world.receive_buf } in
      rw
        (
          steady.gives 1 payload_nonce_size,
          steady.gives 2 pairing_key_size,
          respond-eq p laws rand c code token nonce pair_key m.response_plain m.response_bytes
              intention drawn_all m.response_writes m.responds,
          receive_exchange-eq p laws rand c (challenge_packet p c.username m)
              (generate_transfer_code p c.username) code m.confirm_bytes _ responded node_length
              code_length refl m.confirm_parses challenge_fits.0 challenge_fits.1,
          open_confirmation-eq p laws rand c token reply_nonce m.confirm_plain
              (acceptance d relay pair_id) m.confirm_writes,
          accept_confirmation-eq p laws rand c d relay pair_id pair_key id read u i,
        )
        refl

  -- The client sends its two messages, closes its connection and has its configuration.
  pub client-eq :
      p.parse_url relay.string ≡ ok relay
      → p.device_id_from_bytes d.cert_hash ≡ some id
      → client p rand c
          (received (challenge_packet p c.username m))
          (received (confirm_packet p c.username m))
          intention
          new_client_world
        ≡ (
          ok (client_config p rand c pair_id (steady.draw 2 pairing_key_size) relay id),
          last_world,
        )
  unfolding client client_random
  client-eq u i =
      let code = steady.draw 0 32 in
      let drawn_one = record new_client_world { draws = 1 } in
      let asked = record drawn_one { sent = challenged_world.sent } in
      rw
        (
          steady.gives 0 32,
          send_exchange-eq p laws rand c code m.request challenge_request drawn_one m.requests,
          receive_exchange-eq p laws rand c [] (generate_transfer_code p c.username) code
              m.challenge_bytes _ asked node_length code_length (filled_none 1500)
              m.challenge_parses (omega arith) (omega (arith, challenge_fits.0, challenge_fits.1)),
        )
        (second_half u i)
