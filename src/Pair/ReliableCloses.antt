-- ===== src/Pair/ReliableCloses.antt =====
-- What stabilifyUDPConn returns, and what closing its connection does.
use mathlib.Core.Path.{subst}
use pipie.Prelude.{
  ℕ, zero, suc, ◌+◌, ◌*◌, ◌≤◌, min, ◌≡◌, refl, ◌↔◌, inl, inr, Bool, true, false, ◌||◌, Option, none,
  some, List, [], ◌∷◌, length, All, arith, Bytes, ltb, Outcome, ok, err, panic, Bool-cases,
  Option-cases, if◌then◌else◌,
}
use pipie.Pair.Reliable.{
  KcpAnswers, ReliableConn, new_reliable_conn, stabilify_udp_conn, open_with, then_returns, Sample,
  before_close, after_close, close, close_rounds, Call, close_all, accepted,
}

-- The clock moves on by the sleeps at least.
abbrev pub Ticks : (ℕ → Sample) → Type 0
Ticks samples = (i : ℕ) → 10 * i ≤ (samples i).elapsed

before_close-ends :
    (samples : ℕ → Sample) (fuel i : ℕ)
    → Ticks samples
    → i ≤ 201
    → close_rounds ≤ i + fuel
    → (rounds : ℕ) × (before_close samples fuel i ≡ some rounds)
unfolding before_close
before_close-ends samples zero i t h e = absurd (omega arith)
before_close-ends samples (suc fuel) i t h e =
    elim (Bool-cases (ltb 0 (samples i).snd_buf || ltb 0 (samples i).snd_queue)) [
      | inr q ↦ rw q (i, refl)
      | inl q ↦ elim (Bool-cases (ltb 2000 (samples i).elapsed)) [
        | inl late ↦ rw (q, late) (i, refl)
        | inr early ↦
            rw (q, early)
              (before_close-ends samples fuel (suc i) t (ground (arith, t i)) (omega arith))
      ]
    ]

-- What `n` closes have done.
pub record Closed (as_server : Bool) (n : ℕ) (c : ReliableConn) : Type 0 where
  pub side : c.has_listener ≡ as_server
  pub session : c.session_closes ≡ n
  pub listener : c.listener_closes ≡ (if as_server then min n 1 else 0)
  pub counter : c.close_counter + (if as_server then min n 1 else 0) ≡ 1

after_close-Closed :
    (as_server : Bool) (n : ℕ) (c : ReliableConn)
    → Closed as_server n c
    → Closed as_server (suc n) (after_close (record c { session_closes = suc c.session_closes }))
unfolding after_close
after_close-Closed true n c h = elim (Bool-cases (ltb 0 c.close_counter)) [
  | inl q ↦ record {
    side = ground arith;
    session = ground arith;
    listener = ground arith;
    counter = ground arith;
  }
  | inr q ↦ record {
    side = ground arith;
    session = ground arith;
    listener = ground arith;
    counter = ground arith;
  }
]
after_close-Closed false n c h = record {
  side = ground arith;
  session = ground arith;
  listener = ground arith;
  counter = ground arith;
}

close-eq :
    (samples : ℕ → Sample) (result : Option Bytes) (c : ReliableConn)
    → Ticks samples
    → close samples result c
      ≡ some (result, after_close (record c { session_closes = suc c.session_closes }))
unfolding close
close-eq samples result c t =
    let (rounds, e) = before_close-ends samples close_rounds 0 t (omega arith) (omega arith) in
    rw (e, close) refl

abbrev AllTick : List Call → Type 0
AllTick = All (λ call. Ticks call.0)

close_all-steps :
    (as_server : Bool) (n : ℕ) (calls : List Call) (c : ReliableConn)
    → AllTick calls
    → Closed as_server n c
    → (c' : ReliableConn) × (close_all calls c ≡ some c') × Closed as_server (n + length calls) c'
unfolding close_all
close_all-steps as_server n [] c t h =
    let e : n ≡ n + 0 = omega arith in (c, refl, subst (λ m. Closed as_server m c) e h)
close_all-steps as_server n ((samples, result) ∷ calls) c t h =
    let closed = after_close (record c { session_closes = suc c.session_closes }) in
    let (c', q, h') =
      close_all-steps as_server (suc n) calls closed t.1 (after_close-Closed as_server n c h) in
    let e : suc n + length calls ≡ n + suc (length calls) = omega arith in
    rw (close-eq samples result c t.0, close_all) (c', q, subst (λ m. Closed as_server m c') e h')

new-Closed : (as_server : Bool) → Closed as_server 0 (new_reliable_conn as_server)
new-Closed true = record {
  side = refl;
  session = refl;
  listener = ground arith;
  counter = ground arith;
}
new-Closed false = record { side = refl; session = refl; listener = refl; counter = refl }

-- However often Close is called on a new connection, with a clock that moves on by ten milliseconds
-- a round at least: every call returns, within 202 rounds of waiting for the queues; the session is
-- closed once for each call; and the listener is closed once in all, on the server's side only.
pub close_all-Closed :
    (as_server : Bool) (calls : List Call)
    → All (λ call. Ticks call.0) calls
    → (c : ReliableConn) × (close_all calls (new_reliable_conn as_server) ≡ some c)
      × Closed as_server (length calls) c
close_all-Closed as_server calls t =
    let (c, q, h) =
      close_all-steps as_server 0 calls (new_reliable_conn as_server) t (new-Closed as_server) in
    let e : 0 + length calls ≡ length calls = omega arith in
    (c, q, subst (λ m. Closed as_server m c) e h)

abbrev pub IsPanic {ℓ} : {A : Type ℓ} → Outcome A → Type 0
IsPanic (ok a) = ⊥
IsPanic (err e) = ⊥
IsPanic (panic e) = Unit

accepted-IsPanic : (o : Option Bytes) → ¬ IsPanic (accepted o)
accepted-IsPanic none p = p
accepted-IsPanic (some e) p = p

-- The call that the side makes last before it uses what it got.
abbrev pub first_use : Bool → KcpAnswers → Option Bytes
first_use true a = a.serve
first_use false a = a.new_conn

open_with-IsPanic :
    (encrypted : Bool) (a : KcpAnswers) (e : Option Bytes) (message : Bytes)
    → IsPanic (open_with encrypted a e message)
      ↔ ((encrypted ≡ true) × (a.cipher ≡ none) × ((x : Bytes) × (e ≡ some x)))
unfolding open_with
open_with-IsPanic true a none message = elim (Option-cases a.cipher) [
  | inl n ↦ (λ p. absurd (rw n at p), λ (t, c, (x, q)). absurd (cc))
  | inr (y, n) ↦ (λ p. absurd (rw n at p), λ (t, c, (x, q)). absurd (cc))
]
open_with-IsPanic true a (some x) message = elim (Option-cases a.cipher) [
  | inl n ↦ (λ p. (refl, n, (x, refl)), λ h. rw n tt)
  | inr (y, n) ↦ (λ p. absurd (rw n at p), λ (t, c, q). absurd (cc))
]
open_with-IsPanic false a none message = (λ p. absurd p, λ (t, c, (x, q)). absurd (cc))
open_with-IsPanic false a (some x) message = (λ p. absurd p, λ (t, c, (y, q)). absurd (cc))

then_returns-IsPanic :
    (o : Outcome (Unit {0})) (rest : Outcome ReliableConn)
    → ¬ IsPanic rest
    → IsPanic (then_returns o rest) ↔ IsPanic o
then_returns-IsPanic (ok t) rest h = (λ p. absurd (h p), λ p. absurd p)
then_returns-IsPanic (err e) rest h = (λ p. p, λ p. p)
then_returns-IsPanic (panic e) rest h = (λ p. p, λ p. p)

-- stabilifyUDPConn panics exactly if it has a key, from which a cipher is made, and ServeConn, on
-- the server's side, or NewConn, on the client's, gives an error.
pub stabilify_udp_conn-IsPanic :
    (as_server encrypted : Bool) (a : KcpAnswers)
    → IsPanic (stabilify_udp_conn as_server encrypted a)
      ↔ ((encrypted ≡ true) × (a.cipher ≡ none) × ((e : Bytes) × (first_use as_server a ≡ some e)))
unfolding stabilify_udp_conn
stabilify_udp_conn-IsPanic true encrypted a =
    let (to, from) = then_returns-IsPanic _ (accepted a.accept) (accepted-IsPanic a.accept) in
    let (opens, fails) = open_with-IsPanic encrypted a a.serve _ in
    (λ p. opens (to p), λ h. from (fails h))
stabilify_udp_conn-IsPanic false encrypted a =
    let (to, from) = then_returns-IsPanic _ (ok (new_reliable_conn false)) (λ p. p) in
    let (opens, fails) = open_with-IsPanic encrypted a a.new_conn _ in
    (λ p. opens (to p), λ h. from (fails h))
