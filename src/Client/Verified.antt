-- ===== src/Client/Verified.antt =====
-- What a client has verified when it goes on to the pairing.
use mathlib.Core.Path.{subst}
use pipie.Prelude.{
  suc, ◌≡◌, refl, sym, ap, ◌∙◌, inl, inr, Option, none, some, Bytes, drop, copy, arith, ok,
  Outcome-cases, Option-cases,
}
use pipie.Platform.{Platform}
use pipie.Transfer.{transfer_frame_size}
use pipie.Exchange.{
  ExchangeBody, Intention, ConfirmPayload, challenge, confirm, challenge_request,
  challenge_response,
}
use pipie.Keys.{pairing_key_size}
use pipie.Pair.Builder.{PairConnectionConfig}
use pipie.Daemon.State.{Entropy}
use pipie.Daemon.Loop.{Read, received}
use pipie.Client.Exchanges.{
  ClientWorld, Client, receive_exchange, as_challenge, client, send_exchange, client_random,
}
use pipie.Client.Confirmed.{Confirmed, Configured}
use pipie.Client.Exchanged.{
  Received, Exchanged, receive_exchange-Received, send_exchange-Keeps, receive_exchange-draws,
  client_exchange-Exchanged,
}

module _ (p : Platform) (rand : Entropy) (c : Client) where
  as_challenge-eq_ok :
      (body : Option ExchangeBody) (token : Bytes)
      → as_challenge body ≡ ok token
      → (extra : Bytes) × (body ≡ some (challenge token extra))
  as_challenge-eq_ok none token e = absurd (cc)
  as_challenge-eq_ok (some challenge_request) token e = absurd (cc)
  as_challenge-eq_ok (some (challenge t q)) token e = (q, ground arith)
  as_challenge-eq_ok (some (challenge_response t n q)) token e = absurd (cc)
  as_challenge-eq_ok (some (confirm t n q)) token e = absurd (cc)

  -- Both datagrams were read; the first is a challenge with the token that the second confirms, and
  -- the configuration is made from the confirmation and the pair key that this client drew.
  pub record Verified (w : ClientWorld) (first second : Read) (config : PairConnectionConfig)
      : Type 0 where
    pub one : Bytes
    pub two : Bytes
    pub token : Bytes
    pub extra : Bytes
    pub pair_key : Bytes
    pub payload : ConfirmPayload
    pub first_read : first ≡ received one
    pub second_read : second ≡ received two
    pub challenged :
        (p.unmarshal_exchange (drop transfer_frame_size (copy w.receive_buf one))).0.exchange_body
        ≡ some (challenge token extra)
    pub is_drawn : rand (suc (suc w.draws)) pairing_key_size ≡ some pair_key
    pub confirmed :
        Confirmed p rand c token
          (p.unmarshal_exchange
            (drop transfer_frame_size (copy (copy w.receive_buf one) two))).0.exchange_body
          payload
    pub configured : Configured p rand c pair_key payload config

  Exchanged-Verified :
      (w v : ClientWorld) (first second : Read) (body : Option ExchangeBody) (token : Bytes)
      (config : PairConnectionConfig) (u : ClientWorld)
      → Received p rand c first w u body
      → u.receive_buf ≡ v.receive_buf
      → v.draws ≡ suc w.draws
      → as_challenge body ≡ ok token
      → Exchanged p rand c v token second config
      → Verified w first second config
  Exchanged-Verified w v first second body token config u got same draws is_challenge x =
      let (extra, is_body) = as_challenge-eq_ok body token is_challenge in
      let buffer : v.receive_buf ≡ copy w.receive_buf got.bytes = sym same ∙ got.buffer in
      record {
        one = got.bytes;
        two = x.bytes;
        token = token;
        extra = extra;
        pair_key = x.pair_key;
        payload = x.payload;
        first_read = got.is_read;
        second_read = x.is_read;
        challenged = sym got.is_body ∙ is_body;
        is_drawn = subst (λ n. rand (suc n) pairing_key_size ≡ some x.pair_key) draws x.is_drawn;
        confirmed =
            subst
              (λ buf.
                Confirmed p rand c token
                  (p.unmarshal_exchange
                    (drop transfer_frame_size (copy buf x.bytes))).0.exchange_body
                  x.payload)
              buffer x.confirmed;
        configured = x.configured;
      }

  -- Whatever datagrams come back, a client that goes on to the pairing has verified its peer: the
  -- first was a challenge; the second confirmed the same token, was authentic under the key of the
  -- user name and agreed; and the configuration has the pair id and the relay of that confirmation
  -- and a key made from the pair key that this client drew.
  pub client-Verified :
      (first second : Read) (intention : Intention) (w : ClientWorld)
      (config : PairConnectionConfig)
      → (client p rand c first second intention w).0 ≡ ok config
      → Verified w first second config
  unfolding client client_random
  client-Verified first second intention w config e =
      let w1 = record w { draws = suc w.draws } in
      elim (Option-cases (rand w.draws 32)) [
        | inl x ↦ absurd (ground arith)
        | inr (code, x) ↦
            let w2 = (send_exchange p rand c code challenge_request w1).1 in
            let kept = send_exchange-Keeps p rand c code challenge_request w1 in
            elim (Outcome-cases (send_exchange p rand c code challenge_request w1).0) [
              | inr f ↦ absurd (ground arith)
              | inl (u, s) ↦ elim (Outcome-cases (receive_exchange p rand c first w2).0) [
                | inr f ↦ absurd (ground arith)
                | inl (body, got) ↦ elim (Outcome-cases (as_challenge body)) [
                  | inr f ↦ absurd (ground arith)
                  | inl (token, t) ↦
                      let v = (receive_exchange p rand c first w2).1 in
                      let h = receive_exchange-Received p rand c first w2 body got in
                      Exchanged-Verified w v first second body token config v
                        (record {
                          bytes = h.bytes;
                          is_read = h.is_read;
                          is_body =
                              h.is_body
                              ∙ ap
                                  (λ buf.
                                    (p.unmarshal_exchange (
                                      drop transfer_frame_size (copy buf h.bytes))).0.exchange_body)
                                  kept.0;
                          buffer = h.buffer ∙ ap (λ buf. copy buf h.bytes) kept.0;
                        })
                        refl (receive_exchange-draws p rand c first w2 ∙ kept.1) t
                        (client_exchange-Exchanged p rand c code token second intention v config
                          (ground arith))
                ]
              ]
            ]
      ]
