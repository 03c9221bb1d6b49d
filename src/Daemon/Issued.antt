-- ===== src/Daemon/Issued.antt =====
-- Every token that a daemon knows is one that it drew.

use mathlib.Core.Path.{subst}
use mathlib.Core.Bool.{false≢true}
use pipie.Prelude.{
  ℕ, ◌==◌, ltb, Keeps, Keeps-if, Keeps-lift_bind, suc, ◌<◌, ◌≤◌, ◌≡◌, refl, sym, true, ◌⊎◌, inl,
  inr, Option, none, some, [], ◌∷◌, Bytes, arith, Outcome, Outcome-cases, Option-cases, Bool-cases,
  bytes_equal, bytes_equal_iff, take, drop, length,
}
use pipie.Platform.{Platform}
use pipie.Transfer.{TransferFrame, transfer_frame_size, transfer_version}
use pipie.Exchange.{ExchangeBody, challenge_response, challenge_request, challenge, confirm}
use pipie.Keys.{hex_encode}
use pipie.Pair.Builder.{PairConnectionConfig}
use pipie.Daemon.State.{Daemon, World, Entropy, has_token, put_token}
use pipie.Daemon.Handle.{
  handle_challenge_request, handle_challenge_response, handle_body, handle_frame, handle_exchange,
}
use pipie.Daemon.Tokens.{has_token-delete, has_token-put}
use pipie.Daemon.Replay.{handle_challenge_response-tokens}
use pipie.Daemon.Loop.{new_world}

-- The key is that of a token which was drawn before the n-th draw.
pub record Drawn (rand : Entropy) (n : ℕ) (key : Bytes) : Type 0 where
  pub index : ℕ
  pub token : Bytes
  pub earlier : index < n
  pub random : rand index 32 ≡ some token
  pub is_key : key ≡ hex_encode token

abbrev pub TokensDrawn : Entropy → World → Type 0
TokensDrawn rand w = (key : Bytes) → has_token key w.token_map ≡ true → Drawn rand w.draws key

pub new_world-drawn : (rand : Entropy) → TokensDrawn rand new_world
unfolding has_token
new_world-drawn rand key k = absurd (false≢true k)

Drawn_mono : (rand : Entropy) (m n : ℕ) (key : Bytes) → m ≤ n → Drawn rand m key → Drawn rand n key
Drawn_mono rand m n key h k = record {
  index = k.index;
  token = k.token;
  earlier = omega (arith, k.earlier);
  random = k.random;
  is_key = k.is_key;
}

module _ (p : Platform) (rand : Entropy) (run_pipe : PairConnectionConfig → Outcome (Unit {0}))
    (d : Daemon) where
  -- A challenge request draws one token and stores its key.
  pub request_issues :
      (source : Bytes) (w : World) (token : Bytes)
      → rand w.draws 32 ≡ some token
      → let v = (handle_challenge_request p rand run_pipe d source w).1 in
        (v.draws ≡ suc w.draws) × (v.token_map ≡ put_token (hex_encode token) w.now w.token_map)
  unfolding handle_challenge_request
  request_issues source w token r = ground arith

  pub request_fails :
      (source : Bytes) (w : World)
      → rand w.draws 32 ≡ none
      → let v = (handle_challenge_request p rand run_pipe d source w).1 in
        (v.draws ≡ suc w.draws) × (v.token_map ≡ w.token_map)
  unfolding handle_challenge_request
  request_fails source w r = ground arith

  put-Drawn :
      (w : World) (token key : Bytes)
      → rand w.draws 32 ≡ some token
      → TokensDrawn rand w
      → has_token key (put_token (hex_encode token) w.now w.token_map) ≡ true
      → Drawn rand (suc w.draws) key
  put-Drawn w token key r h k = elim (Bool-cases (bytes_equal (hex_encode token) key)) [
    | inl e ↦ record {
      index = w.draws;
      token = token;
      earlier = omega arith;
      random = r;
      is_key = sym ((bytes_equal_iff (hex_encode token) key).0 e);
    }
    | inr n ↦
        Drawn_mono rand w.draws (suc w.draws) key (omega arith)
          (h key (ground (arith, has_token-put (hex_encode token) key w.now w.token_map)))
  ]

  request-TokensDrawn :
      (source : Bytes)
      → Keeps (TokensDrawn rand) (handle_challenge_request p rand run_pipe d source)
  request-TokensDrawn source w h key k = elim (Option-cases (rand w.draws 32)) [
    | inl n ↦
        let (e, f) = request_fails source w n in
        Drawn_mono rand w.draws _ key (omega arith) (h key (rw f at k))
    | inr (token, r) ↦
        let (e, f) = request_issues source w token r in rw e (put-Drawn w token key r h (rw f at k))
  ]

  response-TokensDrawn :
      (source token nonce payload : Bytes) (w : World)
      → TokensDrawn rand w
      → TokensDrawn rand
          (handle_challenge_response p rand run_pipe d source token nonce payload w).1
  response-TokensDrawn source token nonce payload w h key k =
      let t = handle_challenge_response-tokens p rand run_pipe d source token nonce payload w in
      Drawn_mono rand w.draws _ key t.draws
        (h key (ground (arith, has_token-delete (hex_encode token) key w.token_map)))

  body-TokensDrawn :
      (source : Bytes) (body : Option ExchangeBody) (w : World)
      → TokensDrawn rand w
      → TokensDrawn rand (handle_body p rand run_pipe d source body w).1
  unfolding handle_body
  body-TokensDrawn source none w h = h
  body-TokensDrawn source (some challenge_request) w h = request-TokensDrawn source w h
  body-TokensDrawn source (some (challenge t q)) w h = h
  body-TokensDrawn source (some (confirm t n q)) w h = h
  body-TokensDrawn source (some (challenge_response t n q)) w h =
      response-TokensDrawn source t n q w h

  frame-TokensDrawn :
      (frame : TransferFrame) (bytes : Bytes)
      → Keeps (TokensDrawn rand) (handle_frame p rand run_pipe d frame bytes)
  unfolding handle_frame
  frame-TokensDrawn frame bytes =
      Keeps-if (TokensDrawn rand) _ _ _
        (Keeps-lift_bind (TokensDrawn rand) _ _
          (λ exchange. body-TokensDrawn frame.source exchange.exchange_body))
        (λ w h. h)

  -- A datagram is dropped with no effect, or handled as a frame.
  pub exchange_effect :
      (packet : Bytes) (w : World)
      → let v = (handle_exchange p rand run_pipe d packet w).1 in
        (v ≡ w)
        ⊎ ((frame : TransferFrame) × (v
              ≡ (handle_frame p rand run_pipe d frame (drop transfer_frame_size packet) w).1))
  unfolding handle_exchange
  exchange_effect [] w = inl refl
  exchange_effect (version ∷ rest) w =
      elim (Outcome-cases (p.unpack_frame (take transfer_frame_size (version ∷ rest)))) [
        | inr f ↦ inl (ground arith)
        | inl (frame, e) ↦ elim (Bool-cases (version == transfer_version)) [
          | inr other ↦ inl (ground arith)
          | inl same ↦ elim (Bool-cases (ltb (length (version ∷ rest)) transfer_frame_size)) [
            | inl short ↦ inl (rw (same, short))
            | inr long ↦ inr (frame, rw (same, long, e))
          ]
        ]
      ]

  pub exchange-TokensDrawn :
      (packet : Bytes) → Keeps (TokensDrawn rand) (handle_exchange p rand run_pipe d packet)
  exchange-TokensDrawn packet w h = elim (exchange_effect packet w) [
    | inl e ↦ subst (TokensDrawn rand) (sym e) h
    | inr (frame, e) ↦
        subst (TokensDrawn rand) (sym e)
          (frame-TokensDrawn frame (drop transfer_frame_size packet) w h)
  ]
