-- ===== src/Client/Exchanged.antt =====
-- The second half of a client's exchange: what it has checked when it ends well.
use mathlib.Core.Path.{subst}
use pipie.Prelude.{
  suc, ◌≡◌, refl, ap, ◌∙◌, inl, inr, Option, none, some, Bytes, drop, copy, arith, ok,
  Outcome-cases, Option-cases,
}
use pipie.Platform.{Platform}
use pipie.Transfer.{transfer_frame_size}
use pipie.Exchange.{ExchangeBody, Intention, ConfirmPayload, challenge_response}
use pipie.Keys.{
  generate_encryption_nonce, pairing_key_size, payload_nonce_size, construct_encrypted_payload,
}
use pipie.Pair.Builder.{PairConnectionConfig}
use pipie.Daemon.State.{Entropy}
use pipie.Daemon.Loop.{Read, received, read_error}
use pipie.Client.Exchanges.{
  ClientWorld, Client, signal_encryption_hash, receive_exchange, client_read, open_confirmation,
  client_exchange, send_exchange, respond, client_random, client_write,
}
use pipie.Client.Confirmed.{
  Confirmed, Configured, open_confirmation-Confirmed, accept_confirmation-Configured,
}

module _ (p : Platform) (rand : Entropy) (c : Client) where
  -- A message that was received is what a datagram parses to, in the buffer that it was read into.
  pub record Received (r : Read) (w v : ClientWorld) (body : Option ExchangeBody) : Type 0 where
    pub bytes : Bytes
    pub is_read : r ≡ received bytes
    pub is_body :
        body
        ≡ (p.unmarshal_exchange
            (drop transfer_frame_size (copy w.receive_buf bytes))).0.exchange_body
    pub buffer : v.receive_buf ≡ copy w.receive_buf bytes

  pub receive_exchange-Received :
      (r : Read) (w : ClientWorld) (body : Option ExchangeBody)
      → (receive_exchange p rand c r w).0 ≡ ok body
      → Received r w (receive_exchange p rand c r w).1 body
  unfolding receive_exchange client_read
  receive_exchange-Received (received b) w body e = record {
    bytes = b;
    is_read = refl;
    is_body = ground arith;
    buffer = ground arith;
  }
  receive_exchange-Received (read_error x) w body e = absurd (cc)

  pub send_exchange-Keeps :
      (code : Bytes) (body : ExchangeBody) (w : ClientWorld)
      → let v = (send_exchange p rand c code body w).1 in
        (v.receive_buf ≡ w.receive_buf) × (v.draws ≡ w.draws)
  unfolding send_exchange client_write
  send_exchange-Keeps code body w = ground arith

  respond-Keeps :
      (code token nonce pair_key : Bytes) (intention : Intention) (w : ClientWorld)
      → let v = (respond p rand c code token nonce pair_key intention w).1 in
        (v.receive_buf ≡ w.receive_buf) × (v.draws ≡ w.draws)
  unfolding respond
  respond-Keeps code token nonce pair_key intention w =
      elim (Outcome-cases (
        construct_encrypted_payload p (generate_encryption_nonce p token nonce)
          (signal_encryption_hash p rand c)
          (p.marshal_response
            (record { pair_key = pair_key; force_relay = none; intention = some intention })))) [
              | inl (sealed, q) ↦
                  let k = send_exchange-Keeps code (challenge_response token nonce sealed) w in
                  ground arith
              | inr f ↦ ground arith
            ]

  pub receive_exchange-draws :
      (r : Read) (w : ClientWorld) → (receive_exchange p rand c r w).1.draws ≡ w.draws
  unfolding receive_exchange client_read
  receive_exchange-draws (received b) w = ground arith
  receive_exchange-draws (read_error x) w = refl

  -- The second half of the exchange: the message that `second` brought confirms the token, and the
  -- configuration is made from it and the pair key that was drawn.
  pub record Exchanged (w : ClientWorld) (token : Bytes) (second : Read)
      (config : PairConnectionConfig) : Type 0 where
    pub pair_key : Bytes
    pub bytes : Bytes
    pub payload : ConfirmPayload
    pub is_drawn : rand (suc w.draws) pairing_key_size ≡ some pair_key
    pub is_read : second ≡ received bytes
    pub confirmed :
        Confirmed p rand c token
          (p.unmarshal_exchange
            (drop transfer_frame_size (copy w.receive_buf bytes))).0.exchange_body
          payload
    pub configured : Configured p rand c pair_key payload config

  pub client_exchange-Exchanged :
      (code token : Bytes) (second : Read) (intention : Intention) (w : ClientWorld)
      (config : PairConnectionConfig)
      → (client_exchange p rand c code token second intention w).0 ≡ ok config
      → Exchanged w token second config
  unfolding client_exchange client_random
  client_exchange-Exchanged code token second intention w config e =
      let w2 = record w { draws = suc (suc w.draws) } in
      elim (Option-cases (rand w.draws payload_nonce_size)) [
        | inl x ↦ absurd (ground arith)
        | inr (nonce, x) ↦ elim (Option-cases (rand (suc w.draws) pairing_key_size)) [
          | inl y ↦ absurd (ground arith)
          | inr (pair_key, y) ↦
              let w3 = (respond p rand c code token nonce pair_key intention w2).1 in
              let kept = respond-Keeps code token nonce pair_key intention w2 in
              elim (Outcome-cases (respond p rand c code token nonce pair_key intention w2).0) [
                | inr f ↦ absurd (ground arith)
                | inl (u, s) ↦ elim (Outcome-cases (receive_exchange p rand c second w3).0) [
                  | inr f ↦ absurd (ground arith)
                  | inl (body, got) ↦ elim (Outcome-cases (open_confirmation p rand c token body)) [
                    | inr f ↦ absurd (ground arith)
                    | inl (payload, opened) ↦
                        let h = receive_exchange-Received second w3 body got in
                        record {
                          pair_key = pair_key;
                          bytes = h.bytes;
                          payload = payload;
                          is_drawn = y;
                          is_read = h.is_read;
                          confirmed =
                              subst (λ o. Confirmed p rand c token o payload)
                                (h.is_body
                                  ∙ ap
                                      (λ buf.
                                        (p.unmarshal_exchange (
                                          drop transfer_frame_size
                                            (copy buf h.bytes))).0.exchange_body)
                                      kept.0)
                                (open_confirmation-Confirmed p rand c token body payload opened);
                          configured =
                              accept_confirmation-Configured p rand c pair_key payload
                                (receive_exchange p rand c second w3).1 config (ground arith);
                        }
                  ]
                ]
              ]
        ]
      ]
