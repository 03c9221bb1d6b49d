-- ===== src/Daemon/Spent.antt =====
-- A token that is gone stays gone, through any datagrams, unless the daemon draws it again.
use mathlib.Core.Path.{subst}
use pipie.Prelude.{
  ℕ, ◌≤◌, ◌≡◌, ◌≢◌, sym, false, inl, inr, Keeps, Keeps-if, Keeps-lift_bind, Option, none, some,
  List, [], ◌∷◌, Bytes, text, contains, arith, Outcome, ok, err, Option-cases, Bool-cases,
  bytes_equal, bytes_equal_iff, drop,
}
use pipie.Platform.{Platform}
use pipie.Transfer.{TransferFrame, transfer_frame_size}
use pipie.Exchange.{ExchangeBody, challenge_response, challenge_request, challenge, confirm}
use pipie.Keys.{hex_encode}
use pipie.Pair.Builder.{PairConnectionConfig}
use pipie.Daemon.State.{Daemon, World, Entropy, has_token}
use pipie.Daemon.Handle.{
  handle_challenge_request, handle_challenge_response, handle_body, handle_frame, handle_exchange,
}
use pipie.Daemon.Delivery.{Delivers}
use pipie.Daemon.Tokens.{has_token-delete, has_token-put}
use pipie.Daemon.Replay.{handle_challenge_response-tokens, unknown_refused, spent}
use pipie.Daemon.Loop.{Read, received, read_error, into_buffer, daemon_loop}
use pipie.Daemon.Issued.{request_issues, request_fails, exchange_effect}

-- No draw from the n-th on gives the token of this key.
abbrev pub NotDrawnFrom : Entropy → ℕ → Bytes → Type 0
NotDrawnFrom rand n key =
    (i : ℕ) (token : Bytes) → n ≤ i → rand i 32 ≡ some token → hex_encode token ≢ key

not_equal : (a b : Bytes) → a ≢ b → bytes_equal a b ≡ false
not_equal a b h = elim (Bool-cases (bytes_equal a b)) [
  | inl e ↦ absurd (h ((bytes_equal_iff a b).0 e))
  | inr n ↦ n
]

module _ (p : Platform) (rand : Entropy) (run_pipe : PairConnectionConfig → Outcome (Unit {0}))
    (d : Daemon) (n : ℕ) (key : Bytes) (never : NotDrawnFrom rand n key) where
  record Gone (w : World) : Type 0 where
    later : n ≤ w.draws
    gone : has_token key w.token_map ≡ false

  request-Gone : (source : Bytes) → Keeps Gone (handle_challenge_request p rand run_pipe d source)
  request-Gone source w h = elim (Option-cases (rand w.draws 32)) [
    | inl empty ↦
        let (e, f) = request_fails p rand run_pipe d source w empty in
        record { later = rw e (omega (arith, h.later)); gone = rw f h.gone }
    | inr (token, r) ↦
        let (e, f) = request_issues p rand run_pipe d source w token r in
        record {
          later = rw e (omega (arith, h.later));
          gone =
              rw
                (
                  f,
                  has_token-put (hex_encode token) key w.now w.token_map,
                  not_equal (hex_encode token) key (never w.draws token h.later r),
                )
                h.gone;
        }
  ]

  response-Gone :
      (source token nonce payload : Bytes)
      → Keeps Gone (handle_challenge_response p rand run_pipe d source token nonce payload)
  response-Gone source token nonce payload w h =
      let t = handle_challenge_response-tokens p rand run_pipe d source token nonce payload w in
      record {
        later = omega (arith, h.later, t.draws);
        gone =
            ground (arith, t.either, h.gone, has_token-delete (hex_encode token) key w.token_map);
      }

  body-Gone :
      (source : Bytes) (body : Option ExchangeBody)
      → Keeps Gone (handle_body p rand run_pipe d source body)
  unfolding handle_body
  body-Gone source none w h = h
  body-Gone source (some challenge_request) w h = request-Gone source w h
  body-Gone source (some (challenge t q)) w h = h
  body-Gone source (some (confirm t m q)) w h = h
  body-Gone source (some (challenge_response t m q)) w h = response-Gone source t m q w h

  frame-Gone :
      (frame : TransferFrame) (bytes : Bytes)
      → Keeps Gone (handle_frame p rand run_pipe d frame bytes)
  unfolding handle_frame
  frame-Gone frame bytes =
      Keeps-if Gone _ _ _
        (Keeps-lift_bind Gone _ _ (λ exchange. body-Gone frame.source exchange.exchange_body))
        (λ w h. h)

  exchange-Gone : (packet : Bytes) → Keeps Gone (handle_exchange p rand run_pipe d packet)
  exchange-Gone packet w h = elim (exchange_effect p rand run_pipe d packet w) [
    | inl e ↦ subst Gone (sym e) h
    | inr (frame, e) ↦ subst Gone (sym e) (frame-Gone frame (drop transfer_frame_size packet) w h)
  ]

  pub daemon_loop-gone :
      (reads : List Read) (w : World)
      → n ≤ w.draws
      → has_token key w.token_map ≡ false
      → has_token key (daemon_loop p rand run_pipe d reads w).token_map ≡ false
  unfolding daemon_loop
  daemon_loop-gone [] w l g = g
  daemon_loop-gone (received packet ∷ reads) w l g =
      let h = exchange-Gone (into_buffer packet) w (record { later = l; gone = g }) in
      daemon_loop-gone reads _ h.later h.gone
  daemon_loop-gone (read_error e ∷ reads) w l g =
      elim (Bool-cases (contains e (text "connection refused"))) [
        | inl again ↦ rw again (daemon_loop-gone reads w l g)
        | inr stop ↦ rw stop g
      ]

-- A response that a living daemon handled without error, and that did not end it, cannot be
-- replayed: if no later draw of the daemon gives the token again, then after any further datagrams and
-- errors any response with the same token, from anybody, is refused with "token not found" and
-- changes nothing.
pub replay_refused :
    (p : Platform) (rand : Entropy) (run_pipe : PairConnectionConfig → Outcome (Unit {0}))
    (d : Daemon) (packet source token nonce payload : Bytes) (w : World)
    → Delivers p d packet source (challenge_response token nonce payload)
    → let (r, v) = handle_exchange p rand run_pipe d packet w in
      r ≡ ok tt
      → w.killed ≡ false
      → v.killed ≡ false
      → (reads : List Read) → NotDrawnFrom rand v.draws (hex_encode token)
      → (again source' nonce' payload' : Bytes)
      → Delivers p d again source' (challenge_response token nonce' payload')
      → let u = daemon_loop p rand run_pipe d reads v in
        handle_exchange p rand run_pipe d again u ≡ (err (text "token not found"), u)
replay_refused p rand run_pipe d packet source token nonce payload w first done alive still reads
      never again source' nonce' payload' second =
    let v = (handle_exchange p rand run_pipe d packet w).1 in
    unknown_refused p rand run_pipe d again source' token nonce' payload' _ second (
      daemon_loop-gone p rand run_pipe d v.draws (hex_encode token) never reads v (omega arith)
        (spent p rand run_pipe d packet source token nonce payload w first done alive still))
