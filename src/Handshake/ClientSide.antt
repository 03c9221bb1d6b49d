-- ===== src/Handshake/ClientSide.antt =====
-- The steps of a client whose messages come through.
use pipie.Prelude.{
  ◌≤◌, ◌≡◌, refl, true, none, some, [], ◌∷◌, ◌++◌, length, Bytes, text, bytes_equal_refl, ok,
}
use pipie.Platform.{Platform, Url}
use pipie.Transfer.{construct_transfer_packer}
use pipie.Exchange.{ExchangeBody, Intention, ConfirmPayload, challenge_response, confirm}
use pipie.Keys.{
  generate_encryption_nonce, generate_signal_encryption_key, construct_encrypted_payload,
  exchange_encrypt, exchange_decrypt,
}
use pipie.Daemon.State.{Daemon, Entropy}
use pipie.Daemon.Loop.{received}
use pipie.Daemon.Confirm.{acceptance}
use pipie.Client.Exchanges.{
  ClientWorld, Client, peer_transfer_code, signal_encryption_hash, receive_exchange, client_read,
  client_write, open_confirmation, accept_confirmation, client_config, client_close, send_exchange,
  respond,
}
use pipie.Handshake.Laws.{PlatformLaws}
use pipie.Handshake.Messages.{ParsesPadded}
use pipie.Transfer.Layout.{length-construct_transfer_packer}
use pipie.Handshake.Buffer.{filled, copy-filled, filled_split}

module _ (p : Platform) (laws : PlatformLaws p) (username : Bytes) where
  -- The encryption key has 32 bytes, which AES takes, and the text comes back under it.
  abbrev encryption_key : Bytes
  encryption_key = generate_signal_encryption_key p username

  pub exchange_encrypt-eq :
      (nonce plain : Bytes)
      → exchange_encrypt p nonce encryption_key plain ≡ ok (p.gcm_seal nonce encryption_key plain)
  unfolding exchange_encrypt generate_signal_encryption_key
  exchange_encrypt-eq nonce plain = rw (laws.sum_size (username ++ text "username")) refl

  pub exchange_decrypt-eq :
      (nonce plain : Bytes)
      → exchange_decrypt p nonce encryption_key (p.gcm_seal nonce encryption_key plain) ≡ ok plain
  unfolding exchange_decrypt generate_signal_encryption_key
  exchange_decrypt-eq nonce plain =
      rw (laws.sum_size (username ++ text "username"), laws.opens nonce encryption_key plain) refl

module _ (p : Platform) (laws : PlatformLaws p) (rand : Entropy) (c : Client) where
  -- A text under the nonce of an exchange and the key of the user name.
  abbrev pub sealed_payload : Bytes → Bytes → Bytes → Bytes
  sealed_payload token nonce plain =
      p.gcm_seal (generate_encryption_nonce p token nonce) (signal_encryption_hash p rand c) plain

  -- A packet from the daemon that is as long as the one before it at least is read as its message.
  pub receive_exchange-eq :
      (before source dest bytes : Bytes) (body : ExchangeBody) (w : ClientWorld)
      → let packet = construct_transfer_packer source dest bytes in
        length source ≡ 32
        → length dest ≡ 32
        → w.receive_buf ≡ filled 1500 before
        → ParsesPadded p bytes body
        → length before ≤ length packet
        → length packet ≤ 1500
        → receive_exchange p rand c (received packet) w
          ≡ (ok (some body), record w { receive_buf = filled 1500 packet })
  unfolding receive_exchange client_read
  receive_exchange-eq before source dest bytes body w hs hd buf parses longer fits =
      let packet = construct_transfer_packer source dest bytes in
      let parts = filled_split 1500 source dest bytes hs hd in
      rw
        (
          buf,
          copy-filled 1500 before packet longer fits,
          parts.0,
          parts.1,
          laws.unpacks source dest hs hd,
          length-construct_transfer_packer source dest bytes,
          parses,
        )
        refl

  pub send_exchange-eq :
      (code bytes : Bytes) (body : ExchangeBody) (w : ClientWorld)
      → p.marshal_exchange (record { exchange_body = some body }) ≡ ok bytes
      → send_exchange p rand c code body w ≡ (
        ok tt,
        record w {
          sent =
              w.sent ++ (construct_transfer_packer code (peer_transfer_code p rand c) bytes ∷ []);
        },
      )
  unfolding send_exchange client_write
  send_exchange-eq code bytes body w m = rw m refl

  pub respond-eq :
      (code token nonce pair_key plain bytes : Bytes) (intention : Intention) (w : ClientWorld)
      → let sealed = sealed_payload token nonce plain in
        p.marshal_response
            (record { pair_key = pair_key; force_relay = none; intention = some intention })
          ≡ ok plain
        → p.marshal_exchange
            (record { exchange_body = some (challenge_response token nonce sealed) })
          ≡ ok bytes
        → respond p rand c code token nonce pair_key intention w ≡ (
          ok tt,
          record w {
            sent =
                w.sent ++ (construct_transfer_packer code (peer_transfer_code p rand c) bytes ∷ []);
          },
        )
  unfolding respond construct_encrypted_payload
  respond-eq code token nonce pair_key plain bytes intention w m m' =
      rw (m, exchange_encrypt-eq p laws c.username (generate_encryption_nonce p token nonce) plain)
        (send_exchange-eq code bytes _ w m')

  pub open_confirmation-eq :
      (token nonce plain : Bytes) (payload : ConfirmPayload)
      → p.marshal_confirm payload ≡ ok plain
      → open_confirmation p rand c token
          (some (confirm token nonce (sealed_payload token nonce plain)))
        ≡ ok payload
  unfolding open_confirmation
  open_confirmation-eq token nonce plain payload m =
      rw
        (
          bytes_equal_refl token,
          exchange_decrypt-eq p laws c.username (generate_encryption_nonce p token nonce) plain,
          laws.confirm_read payload plain m,
        )
        refl

  pub accept_confirmation-eq :
      (d : Daemon) (relay : Url) (pair_id pair_key id : Bytes) (w : ClientWorld)
      → p.parse_url relay.string ≡ ok relay
      → p.device_id_from_bytes d.cert_hash ≡ some id
      → accept_confirmation p rand c pair_key (acceptance d relay pair_id) w
        ≡ (ok (client_config p rand c pair_id pair_key relay id), record w { closed = true })
  unfolding accept_confirmation client_close
  accept_confirmation-eq d relay pair_id pair_key id w u i = rw (u, i) refl
