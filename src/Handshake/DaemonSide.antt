-- ===== src/Handshake/DaemonSide.antt =====
-- The steps of a daemon that a client's messages reach.
use pipie.Prelude.{
  suc, ◌≡◌, refl, ap, ◌∙◌, true, some, [], ◌∷◌, ◌++◌, take, length, Bytes, arith, Outcome, ok,
}
use pipie.Platform.{Platform}
use pipie.Transfer.{construct_transfer_packer, transfer_version}
use pipie.Transfer.Layout.{
  packer_split, construct_transfer_packer_eq, length-construct_transfer_packer,
}
use pipie.Exchange.{ExchangeBody, ResponsePayload, ConfirmPayload, challenge, confirm}
use pipie.Keys.{
  challenge_token_size, payload_nonce_size, hex_encode, generate_encryption_nonce,
  generate_signal_encryption_key, construct_encrypted_payload, exchange_decrypt,
}
use pipie.Pair.Builder.{PairConnectionConfig}
use pipie.Daemon.State.{
  Daemon, World, Entropy, has_token, put_token, get_random_bytes, issue_token, write_frame,
}
use pipie.Daemon.Confirm.{daemon_challenge_confirm}
use pipie.Daemon.Handle.{
  open_response, handle_challenge_request, handle_challenge_response, serve_response,
}
use pipie.Daemon.Delivery.{Delivers}
use pipie.Handshake.Laws.{PlatformLaws, Steady}
use pipie.Handshake.ClientSide.{exchange_encrypt-eq, exchange_decrypt-eq}

module _ (p : Platform) (laws : PlatformLaws p) (rand : Entropy) (steady : Steady rand)
    (run_pipe : PairConnectionConfig → Outcome (Unit {0})) (d : Daemon) where
  pub packet-Delivers :
      (source bytes : Bytes) (body : ExchangeBody)
      → length source ≡ 32
      → length d.transfer_code ≡ 32
      → p.marshal_exchange (record { exchange_body = some body }) ≡ ok bytes
      → Delivers p d (construct_transfer_packer source d.transfer_code bytes) source body
  packet-Delivers source bytes body hs hd m =
      let parts = packer_split source d.transfer_code bytes hs hd in
      record {
        frame = record {
          version = transfer_version;
          source = source;
          destination = d.transfer_code;
        };
        from = refl;
        long_enough = omega (arith, length-construct_transfer_packer source d.transfer_code bytes);
        versioned = ap (take 1) (construct_transfer_packer_eq source d.transfer_code bytes hs hd);
        header = ap p.unpack_frame parts.0 ∙ laws.unpacks source d.transfer_code hs hd;
        addressed = refl;
        message = ap p.unmarshal_exchange parts.1 ∙ laws.exchange_read _ bytes m;
      }

  pub handle_challenge_request-eq :
      (source bytes : Bytes) (w : World)
      → let token = steady.draw w.draws challenge_token_size in
        p.marshal_exchange (record { exchange_body = some (challenge token []) }) ≡ ok bytes
        → handle_challenge_request p rand run_pipe d source w ≡ (
          ok tt,
          record w {
            token_map = put_token (hex_encode token) w.now w.token_map;
            sent = w.sent ++ (construct_transfer_packer d.transfer_code source bytes ∷ []);
            draws = suc w.draws;
          },
        )
  unfolding handle_challenge_request get_random_bytes issue_token write_frame
  handle_challenge_request-eq source bytes w m =
      rw (steady.gives w.draws challenge_token_size, m) refl

  module _ (username : Bytes)
      (keyed : d.signal_encryption_hash ≡ generate_signal_encryption_key p username) where
    open_response-eq :
        (token nonce plain : Bytes) (response : ResponsePayload)
        → p.marshal_response response ≡ ok plain
        → open_response p d token nonce (
            p.gcm_seal
              (generate_encryption_nonce p token nonce)
              (generate_signal_encryption_key p username)
              plain)
          ≡ ok response
    unfolding open_response
    open_response-eq token nonce plain response m =
        let key = generate_signal_encryption_key p username in
        let iv = generate_encryption_nonce p token nonce in
        let opened : exchange_decrypt p iv d.signal_encryption_hash (p.gcm_seal iv key plain)
            ≡ ok plain =
          ap (λ k. exchange_decrypt p iv k (p.gcm_seal iv key plain)) keyed
          ∙ exchange_decrypt-eq p laws username iv plain in
        rw (opened, laws.response_read response plain m, open_response) refl

    pub handle_challenge_response-eq :
        (source token nonce plain : Bytes) (response : ResponsePayload) (w : World)
        → let key = generate_signal_encryption_key p username in
          has_token (hex_encode token) w.token_map ≡ true
          → p.marshal_response response ≡ ok plain
          → handle_challenge_response p rand run_pipe d source token nonce
              (p.gcm_seal (generate_encryption_nonce p token nonce) key plain)
              w
            ≡ serve_response p rand run_pipe d token source response w
    unfolding handle_challenge_response
    handle_challenge_response-eq source token nonce plain response w known m =
        rw (known, open_response-eq token nonce plain response m) refl

    pub daemon_challenge_confirm-eq :
        (token dest plain bytes : Bytes) (payload : ConfirmPayload) (w : World)
        → let nonce = steady.draw w.draws payload_nonce_size in
          let key = generate_signal_encryption_key p username in
          let sealed = p.gcm_seal (generate_encryption_nonce p token nonce) key plain in
          p.marshal_confirm payload ≡ ok plain
          → p.marshal_exchange (record { exchange_body = some (confirm token nonce sealed) })
            ≡ ok bytes
          → daemon_challenge_confirm p rand d token dest payload w ≡ (
            ok tt,
            record w {
              sent = w.sent ++ (construct_transfer_packer d.transfer_code dest bytes ∷ []);
              draws = suc w.draws;
            },
          )
    unfolding daemon_challenge_confirm get_random_bytes write_frame construct_encrypted_payload
    daemon_challenge_confirm-eq token dest plain bytes payload w m m' =
        let nonce = steady.draw w.draws payload_nonce_size in
        rw
          (
            steady.gives w.draws payload_nonce_size,
            keyed,
            m,
            exchange_encrypt-eq p laws username (generate_encryption_nonce p token nonce) plain,
            m',
          )
          refl
