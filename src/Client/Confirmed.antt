-- ===== src/Client/Confirmed.antt =====
-- What a client has checked of a confirmation that it accepts.
use mathlib.Core.Path.{subst}
use pipie.Prelude.{
  ◌≡◌, ap, inl, inr, true, Option, none, some, Bytes, bytes_equal_iff, arith, ok, Outcome-cases,
  Option-cases,
}
use pipie.Platform.{Platform, Url}
use pipie.Exchange.{
  ExchangeBody, ConfirmPayload, challenge, confirm, challenge_request, challenge_response,
}
use pipie.Keys.{generate_encryption_nonce, exchange_decrypt}
use pipie.Pair.Builder.{PairConnectionConfig}
use pipie.Daemon.State.{Entropy}
use pipie.Client.Exchanges.{
  ClientWorld, Client, signal_encryption_hash, open_confirmation, accept_confirmation,
  client_config, client_close, signature_bytes,
}

module _ (p : Platform) (rand : Entropy) (c : Client) where
  -- The confirmation answers the token, is authentic and says that the daemon agreed.
  pub record Confirmed (token : Bytes) (body : Option ExchangeBody) (payload : ConfirmPayload)
      : Type 0 where
    pub nonce : Bytes
    pub sealed : Bytes
    pub plain : Bytes
    pub is_confirm : body ≡ some (confirm token nonce sealed)
    pub authentic :
        p.gcm_open
          (generate_encryption_nonce p token nonce)
          (signal_encryption_hash p rand c)
          sealed
        ≡ some plain
    pub parsed : p.unmarshal_confirm plain ≡ (payload, none)

  -- The configuration is made from what an agreeing confirmation says.
  pub record Configured (pair_key : Bytes) (payload : ConfirmPayload)
      (config : PairConnectionConfig) : Type 0 where
    pub agreed : payload.result ≡ some true
    pub pair_id : Bytes
    pub relay_text : Bytes
    pub relay : Url
    pub peer_device_id : Bytes
    pub has_pair_id : payload.pair_id ≡ some pair_id
    pub has_relay : payload.relay ≡ some relay_text
    pub relay_parses : p.parse_url relay_text ≡ ok relay
    pub is_config : config ≡ client_config p rand c pair_id pair_key relay peer_device_id

  pub open_confirmation-Confirmed :
      (token : Bytes) (body : Option ExchangeBody) (payload : ConfirmPayload)
      → open_confirmation p rand c token body ≡ ok payload
      → Confirmed token body payload
  unfolding open_confirmation exchange_decrypt
  open_confirmation-Confirmed token none payload e = absurd (cc)
  open_confirmation-Confirmed token (some challenge_request) payload e = absurd (cc)
  open_confirmation-Confirmed token (some (challenge t q)) payload e = absurd (cc)
  open_confirmation-Confirmed token (some (challenge_response t n q)) payload e = absurd (cc)
  open_confirmation-Confirmed token (some (confirm t n q)) payload e =
      elim (Option-cases
        (p.gcm_open (generate_encryption_nonce p t n) (signal_encryption_hash p rand c) q)) [
          | inl x ↦ absurd (ground arith)
          | inr (plain, x) ↦
              let same : t ≡ token = ground (arith, bytes_equal_iff t token) in
              record {
                nonce = n;
                sealed = q;
                plain = plain;
                is_confirm = ap (λ z. some (confirm z n q)) same;
                authentic =
                    subst
                      (λ z.
                        p.gcm_open (generate_encryption_nonce p z n)
                          (signal_encryption_hash p rand c) q
                        ≡ some plain)
                      same x;
                parsed = ground arith;
              }
        ]

  pub accept_confirmation-Configured :
      (pair_key : Bytes) (payload : ConfirmPayload) (w : ClientWorld)
      (config : PairConnectionConfig)
      → (accept_confirmation p rand c pair_key payload w).0 ≡ ok config
      → Configured pair_key payload config
  unfolding accept_confirmation client_close
  accept_confirmation-Configured pair_key payload w config e = elim (Option-cases payload.result) [
    | inl x ↦ absurd (ground arith)
    | inr (agreed, x) ↦ elim (Option-cases payload.pair_id) [
      | inl y ↦ absurd (ground arith)
      | inr (pair_id, y) ↦ elim (Option-cases payload.relay) [
        | inl z ↦ absurd (ground arith)
        | inr (relay_text, z) ↦ elim (Outcome-cases (p.parse_url relay_text)) [
          | inr f ↦ absurd (ground arith)
          | inl (relay, u) ↦
              elim (Option-cases (p.device_id_from_bytes (signature_bytes payload.signature))) [
                | inl v ↦ absurd (ground arith)
                | inr (peer_device_id, v) ↦ record {
                  agreed = ground arith;
                  pair_id = pair_id;
                  relay_text = relay_text;
                  relay = relay;
                  peer_device_id = peer_device_id;
                  has_pair_id = y;
                  has_relay = z;
                  relay_parses = u;
                  is_config = ground arith;
                }
              ]
        ]
      ]
    ]
  ]
