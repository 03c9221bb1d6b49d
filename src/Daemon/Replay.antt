-- ===== src/Daemon/Replay.antt =====
-- A token serves once: what a daemon does with a second response that carries it.
use pipie.Prelude.{
  IsFailure, false, ◌≡◌, ◌∙◌, inl, inr, Bytes, text, arith, Outcome, ok, err, Outcome-cases,
  Bool-cases, bytes_equal_refl,
}
use pipie.Platform.{Platform}
use pipie.Exchange.{challenge_response}
use pipie.Keys.{hex_encode}
use pipie.Pair.Builder.{PairConnectionConfig}
use pipie.Daemon.State.{Daemon, World, Entropy, has_token}
use pipie.Daemon.Handle.{open_response, handle_challenge_response, handle_body, handle_exchange}
use pipie.Daemon.Delivery.{Delivers, handle_exchange-Delivers}
use pipie.Daemon.Tokens.{has_token-delete, ResponseTokens, serve_response-tokens}

module _ (p : Platform) (rand : Entropy) (run_pipe : PairConnectionConfig → Outcome (Unit {0}))
    (d : Daemon) where
  pub handle_challenge_response-tokens :
      (source token nonce payload : Bytes) (w : World)
      → let (r, v) = handle_challenge_response p rand run_pipe d source token nonce payload w in
        ResponseTokens p rand run_pipe d w token r v
  unfolding handle_challenge_response
  handle_challenge_response-tokens source token nonce payload w =
      elim (Bool-cases (has_token (hex_encode token) w.token_map)) [
        | inr unknown ↦ ground arith
        | inl known ↦ elim (Outcome-cases (open_response p d token nonce payload)) [
          | inr f ↦ ground arith
          | inl (response, opened) ↦
              ground (arith, serve_response-tokens p rand run_pipe d token source response w)
        ]
      ]

  unknown_token :
      (source token nonce payload : Bytes) (w : World)
      → has_token (hex_encode token) w.token_map ≡ false
      → handle_challenge_response p rand run_pipe d source token nonce payload w
        ≡ (err (text "token not found"), w)
  unfolding handle_challenge_response
  unknown_token source token nonce payload w e = rw e

  -- A response with a token that the daemon does not know is refused, and nothing changes.
  pub unknown_refused :
      (packet source token nonce payload : Bytes) (w : World)
      → Delivers p d packet source (challenge_response token nonce payload)
      → has_token (hex_encode token) w.token_map ≡ false
      → handle_exchange p rand run_pipe d packet w ≡ (err (text "token not found"), w)
  unfolding handle_body
  unknown_refused packet source token nonce payload w sent gone =
      handle_exchange-Delivers p rand run_pipe d packet source _ w sent
      ∙ unknown_token source token nonce payload w gone

  module _ (packet source token nonce payload : Bytes) (w : World)
      (first : Delivers p d packet source (challenge_response token nonce payload)) where
    delivered :
        handle_exchange p rand run_pipe d packet w
        ≡ handle_challenge_response p rand run_pipe d source token nonce payload w
    unfolding handle_body
    delivered = handle_exchange-Delivers p rand run_pipe d packet source _ w first

    -- A response that a living daemon handled without error, and that did not end it, has its token
    -- deleted.
    pub spent :
        (handle_exchange p rand run_pipe d packet w).0 ≡ ok tt
        → w.killed ≡ false
        → (handle_exchange p rand run_pipe d packet w).1.killed ≡ false
        → has_token (hex_encode token) (handle_exchange p rand run_pipe d packet w).1.token_map
          ≡ false
    spent done alive still =
        let t = handle_challenge_response-tokens source token nonce payload w in
        rw delivered (
          rw (
            t.spent_ok (rw delivered at done) alive (rw delivered at still),
            has_token-delete (hex_encode token) (hex_encode token) w.token_map,
            bytes_equal_refl (hex_encode token),
          ))

    -- A challenge response for the daemon whose handling fails, by an error or a panic, leaves the
    -- token map as it was.
    pub failure_keeps_tokens :
        IsFailure (handle_exchange p rand run_pipe d packet w).0
        → (handle_exchange p rand run_pipe d packet w).1.token_map ≡ w.token_map
    failure_keeps_tokens =
        rw delivered (handle_challenge_response-tokens source token nonce payload w).kept_failure
