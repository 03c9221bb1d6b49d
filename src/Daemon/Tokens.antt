-- ===== src/Daemon/Tokens.antt =====
-- The life of a token: issued by a challenge, spent by the response that is served or refused.
use pipie.Prelude.{
  ℕ, IsFailure, suc, ◌≤◌, Bool, true, false, ◌≡◌, ◌⊎◌, inl, inr, Option, none, some, List, [], ◌∷◌,
  Bytes, text, arith, Outcome, ok, Option-cases, Outcome-cases, bytes_equal, bytes_equal_iff,
  if◌then◌else◌,
}
use pipie.Platform.{Platform, Url}
use pipie.Exchange.{Intention, pipe_out, port_forward_to, port_forward_from, ResponsePayload}
use pipie.Keys.{hex_encode}
use pipie.Pair.Builder.{PairConnectionConfig}
use pipie.Daemon.State.{Daemon, World, Entropy, has_token, delete_token, put_token}
use pipie.Daemon.Serve.{serve_pipe_out, serve_forward_to, serve_forward_from, serve_intention}
use pipie.Daemon.Handle.{serve_response, or_error, get_relay_server}
use pipie.Daemon.Untouched.{accept-OnlyReplies}

-- A key is there after a deletion exactly if it was there and is another.
pub has_token-delete :
    (key j : Bytes) (m : List (Bytes × ℕ))
    → has_token j (delete_token key m) ≡ (if bytes_equal key j then false else has_token j m)
unfolding has_token delete_token
has_token-delete key j [] = ground arith
has_token-delete key j ((i, t) ∷ m) = ground (
  arith,
  has_token-delete key j m,
  bytes_equal_iff key j,
  bytes_equal_iff i j,
  bytes_equal_iff i key,
)

pub has_token-put :
    (key j : Bytes) (t : ℕ) (m : List (Bytes × ℕ))
    → has_token j (put_token key t m) ≡ (if bytes_equal key j then true else has_token j m)
unfolding has_token put_token
has_token-put key j t m = ground (arith, has_token-delete key j m, bytes_equal_iff key j)

module _ (p : Platform) (rand : Entropy) (run_pipe : PairConnectionConfig → Outcome (Unit {0}))
    (d : Daemon) where
  -- Serving an intention leaves the token map; it goes on to the deletion unless a pipe was served,
  -- which kills the daemon.
  record Served (w : World) (r : Outcome Bool) (v : World) : Type 0 where
    token_map : v.token_map ≡ w.token_map
    goes_on : r ≡ ok true → v.killed ≡ w.killed
    returns : r ≡ ok false → v.killed ≡ true
    draws : w.draws ≤ v.draws

  serve_intention-Served :
      (token source pair_id pair_key : Bytes) (relay : Url) (w : World)
      (intention : Option Intention)
      → let (r, v) =
          serve_intention p rand run_pipe d token source pair_id pair_key relay intention w in
        Served w r v
  unfolding serve_intention serve_pipe_out serve_forward_to serve_forward_from
  serve_intention-Served token source pair_id pair_key relay w none = ground arith
  serve_intention-Served token source pair_id pair_key relay w (some pipe_out) =
      ground (arith, accept-OnlyReplies p rand d token source pair_id pair_key relay w)
  serve_intention-Served token source pair_id pair_key relay w (some (port_forward_to h n)) =
      ground (arith, accept-OnlyReplies p rand d token source pair_id pair_key relay w)
  serve_intention-Served token source pair_id pair_key relay w (some (port_forward_from h n)) =
      ground (arith, accept-OnlyReplies p rand d token source pair_id pair_key relay w)

  -- A response that is handled without error, and that does not end the daemon, has its token
  -- deleted; in every other case the token map is left alone.
  pub record ResponseTokens (w : World) (token : Bytes) (r : Outcome (Unit {0})) (v : World)
      : Type 0 where
    pub spent_ok :
        r ≡ ok tt
        → w.killed ≡ false
        → v.killed ≡ false
        → v.token_map ≡ delete_token (hex_encode token) w.token_map
    pub kept_failure : IsFailure r → v.token_map ≡ w.token_map
    pub draws : w.draws ≤ v.draws
    pub either :
        (v.token_map ≡ w.token_map) ⊎ (v.token_map ≡ delete_token (hex_encode token) w.token_map)

  pub serve_response-tokens :
      (token source : Bytes) (response : ResponsePayload) (w : World)
      → let (r, v) = serve_response p rand run_pipe d token source response w in
        ResponseTokens w token r v
  unfolding serve_response
  serve_response-tokens token source response w =
      elim (Outcome-cases (or_error (text "unable to get relay server") (get_relay_server p))) [
        | inr f ↦ ground arith
        | inl (relay, e) ↦ elim (Option-cases (rand w.draws 32)) [
          | inl n ↦ ground arith
          | inr (random, r) ↦ ground (
            arith,
            serve_intention-Served token source (hex_encode random) response.pair_key relay
                (record w { draws = suc w.draws }) response.intention,
          )
        ]
      ]
