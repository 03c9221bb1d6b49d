-- ===== src/Daemon/Permitted.antt =====
-- Which sessions a daemon starts for a challenge response.
use pipie.Prelude.{
  ℕ, suc, text, true, ◌≡◌, refl, ◌⊎◌, inl, inr, Option, none, some, [], ◌∷◌, ◌++◌, Bytes, arith,
  Outcome, ok, Option-cases, Outcome-cases, Bool-cases,
}
use pipie.Platform.{Platform, Url}
use pipie.Exchange.{Intention, pipe_out, port_forward_to, port_forward_from, ResponsePayload}
use pipie.Permission.{check_port_forward_in, check_port_forward_out, check_pipe_out}
use pipie.Keys.{hex_encode, generate_encryption_nonce, exchange_decrypt}
use pipie.Pair.Builder.{PairConnectionConfig}
use pipie.Daemon.State.{
  Daemon, World, Entropy, Session, pipe_session, forward_from_session, forward_to_session,
}
use pipie.Daemon.Confirm.{accept}
use pipie.Daemon.Serve.{
  uint16, serve_pipe_out, serve_forward_to, serve_forward_from, serve_intention,
}
use pipie.Daemon.Handle.{
  open_response, serve_response, handle_challenge_request, or_error, get_relay_server,
}
use pipie.Daemon.Untouched.{accept-OnlyReplies}

-- The session is the one that the intention asks for, and the daemon's checker permits it.
pub data Permitted (d : Daemon) : Option Intention → Session → Type 0 where
  pipe :
      (config : PairConnectionConfig)
      → check_pipe_out d.permission ≡ true
      → Permitted d (some pipe_out) (pipe_session config)
  to :
      (config : PairConnectionConfig) (host : Bytes) (port : ℕ)
      → check_port_forward_in d.permission host port ≡ true
      → Permitted d
          (some (port_forward_to (some host) (some port)))
          (forward_from_session config host (uint16 port))
  from :
      (config : PairConnectionConfig) (host : Bytes) (port : ℕ)
      → check_port_forward_out d.permission host port ≡ true
      → Permitted d
          (some (port_forward_from (some host) (some port)))
          (forward_to_session config host (uint16 port))

-- No session, or one more that `P` holds of.
abbrev pub AtMostOne : World → World → (Session → Type 0) → Type 0
AtMostOne v w P =
    (w.sessions ≡ v.sessions) ⊎ ((s : Session) × P s × (w.sessions ≡ v.sessions ++ (s ∷ [])))

-- The parts of a response that was opened.
pub open_response-eq_ok :
    (p : Platform) (d : Daemon) (token nonce payload : Bytes) {response : ResponsePayload}
    → open_response p d token nonce payload ≡ ok response
    → (plain : Bytes) × (p.gcm_open
          (generate_encryption_nonce p token nonce)
          d.signal_encryption_hash
          payload
        ≡ some plain)
      × (p.unmarshal_response plain ≡ (response, none))
unfolding open_response exchange_decrypt
open_response-eq_ok p d token nonce payload e =
    let g = p.gcm_open (generate_encryption_nonce p token nonce) d.signal_encryption_hash payload in
    elim (Option-cases g) [
      | inl n ↦ absurd (ground arith)
      | inr (plain, o) ↦ (plain, o, ground arith)
    ]

module _ (p : Platform) (rand : Entropy) (run_pipe : PairConnectionConfig → Outcome (Unit {0}))
    (d : Daemon) where
  module _ (token source pair_id pair_key : Bytes) (relay : Url) (w : World) where
    serve_pipe_out-AtMostOne :
        AtMostOne w
          (serve_pipe_out p rand run_pipe d token source pair_id pair_key relay w).1
          (Permitted d (some pipe_out))
    unfolding serve_pipe_out
    serve_pipe_out-AtMostOne =
        let kept = accept-OnlyReplies p rand d token source pair_id pair_key relay w in
        elim (Bool-cases (check_pipe_out d.permission)) [
          | inl e ↦ elim (Outcome-cases (accept p rand d token source pair_id pair_key relay w).0) [
            | inl (config, c) ↦ inr (pipe_session config, pipe config e, ground arith)
            | inr f ↦ inl (ground arith)
          ]
          | inr e ↦ inl (ground arith)
        ]

    serve_forward_to-AtMostOne :
        (host : Option Bytes) (port : Option ℕ)
        → AtMostOne w
            (serve_forward_to p rand run_pipe d token source pair_id pair_key relay host port w).1
            (Permitted d (some (port_forward_to host port)))
    unfolding serve_forward_to
    serve_forward_to-AtMostOne none port = inl refl
    serve_forward_to-AtMostOne (some host) none = inl refl
    serve_forward_to-AtMostOne (some host) (some port) =
        let kept = accept-OnlyReplies p rand d token source pair_id pair_key relay w in
        elim (Bool-cases (check_port_forward_in d.permission host port)) [
          | inl e ↦ elim (Outcome-cases (accept p rand d token source pair_id pair_key relay w).0) [
            | inl (config, c) ↦ inr (
              forward_from_session config host (uint16 port),
              to config host port e,
              ground arith,
            )
            | inr f ↦ inl (ground arith)
          ]
          | inr e ↦ inl (ground arith)
        ]

    serve_forward_from-AtMostOne :
        (host : Option Bytes) (port : Option ℕ)
        → AtMostOne w
            (serve_forward_from p rand run_pipe d token source pair_id pair_key relay host port w).1
            (Permitted d (some (port_forward_from host port)))
    unfolding serve_forward_from
    serve_forward_from-AtMostOne none port = inl refl
    serve_forward_from-AtMostOne (some host) none = inl refl
    serve_forward_from-AtMostOne (some host) (some port) =
        let kept = accept-OnlyReplies p rand d token source pair_id pair_key relay w in
        elim (Bool-cases (check_port_forward_out d.permission host port)) [
          | inl e ↦ elim (Outcome-cases (accept p rand d token source pair_id pair_key relay w).0) [
            | inl (config, c) ↦ inr (
              forward_to_session config host (uint16 port),
              from config host port e,
              ground arith,
            )
            | inr f ↦ inl (ground arith)
          ]
          | inr e ↦ inl (ground arith)
        ]

    serve_intention-AtMostOne :
        (intention : Option Intention)
        → AtMostOne w
            (serve_intention p rand run_pipe d token source pair_id pair_key relay intention w).1
            (Permitted d intention)
    unfolding serve_intention
    serve_intention-AtMostOne none = inl refl
    serve_intention-AtMostOne (some pipe_out) = serve_pipe_out-AtMostOne
    serve_intention-AtMostOne (some (port_forward_to h n)) = serve_forward_to-AtMostOne h n
    serve_intention-AtMostOne (some (port_forward_from h n)) = serve_forward_from-AtMostOne h n

  pub serve_response-AtMostOne :
      (token source : Bytes) (response : ResponsePayload) (w : World)
      → AtMostOne w
          (serve_response p rand run_pipe d token source response w).1
          (Permitted d response.intention)
  unfolding serve_response
  serve_response-AtMostOne token source response w =
      elim (Outcome-cases (or_error (text "unable to get relay server") (get_relay_server p))) [
        | inr f ↦ inl (ground arith)
        | inl (relay, e) ↦ elim (Option-cases (rand w.draws 32)) [
          | inl n ↦ inl (ground arith)
          | inr (random, r) ↦
              elim (serve_intention-AtMostOne token source (hex_encode random) response.pair_key
                relay (record w { draws = suc w.draws }) response.intention) [
                  | inl same ↦ inl (ground arith)
                  | inr (s, permitted, more) ↦ inr (s, permitted, ground arith)
                ]
        ]
      ]

  pub handle_challenge_request-sessions :
      (source : Bytes) (w : World)
      → (handle_challenge_request p rand run_pipe d source w).1.sessions ≡ w.sessions
  unfolding handle_challenge_request
  handle_challenge_request-sessions source w = ground arith
