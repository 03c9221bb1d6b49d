-- ===== src/Pair/Attempts.antt =====
-- Which round of buildConnectionUDP counts.

use mathlib.Core.Path.{subst}
use pipie.Prelude.{
  ℕ, zero, suc, ◌+◌, ◌≤◌, ◌<◌, ◌≡◌, refl, ◌⊎◌, inl, inr, false, Option, none, some, Bytes, arith,
  Outcome, ok, err, panic, Bool-cases,
}
use pipie.Pair.Traverse.{
  Connected, Attempt, attempts, build_connection_udp, traversal_attempt_retry,
}

-- The round whose connection counts: neither it nor one before it was cancelled, and those before
-- it failed.
pub record FirstSuccess (attempt : ℕ → Attempt) (from limit : ℕ) (c : Connected) : Type 0 where
  pub round : ℕ
  pub not_before : from ≤ round
  pub in_time : round < limit
  pub result : (attempt round).result ≡ ok c
  pub uncancelled : (i : ℕ) → from ≤ i → i ≤ round → (attempt i).cancelled ≡ false
  pub earlier : (i : ℕ) → from ≤ i → i < round → (e : Bytes) × ((attempt i).result ≡ err e)

success_here :
    (attempt : ℕ → Attempt) (i left : ℕ) (c : Connected)
    → (attempt i).cancelled ≡ false
    → (attempt i).result ≡ ok c
    → FirstSuccess attempt i (i + suc left) c
success_here attempt i left c free q = record {
  round = i;
  not_before = omega arith;
  in_time = omega arith;
  result = q;
  uncancelled = λ j a b. subst (λ k. (attempt k).cancelled ≡ false) (omega arith) free;
  earlier = λ j a b. absurd (omega arith);
}

success_later :
    (attempt : ℕ → Attempt) (i left : ℕ) (c : Connected) (e : Bytes)
    → (attempt i).cancelled ≡ false
    → (attempt i).result ≡ err e
    → FirstSuccess attempt (suc i) (suc i + left) c
    → FirstSuccess attempt i (i + suc left) c
success_later attempt i left c e free q f = record {
  round = f.round;
  not_before = omega (arith, f.not_before);
  in_time = omega (arith, f.in_time);
  result = f.result;
  uncancelled = λ j a b. elim (at_or_after i j a) [
    | inl same ↦ subst (λ k. (attempt k).cancelled ≡ false) same free
    | inr later ↦ f.uncancelled j later b
  ];
  earlier = λ j a b. elim (at_or_after i j a) [
    | inl same ↦ (e, subst (λ k. (attempt k).result ≡ err e) same q)
    | inr later ↦ f.earlier j later b
  ];
}
  where
    at_or_after : (i j : ℕ) → i ≤ j → (i ≡ j) ⊎ (suc i ≤ j)
    at_or_after i j h = ground arith

attempts-FirstSuccess :
    (attempt : ℕ → Attempt) (left i : ℕ) (e : Option Bytes) (c : Connected)
    → attempts attempt left i e ≡ ok c
    → FirstSuccess attempt i (i + left) c
unfolding attempts
attempts-FirstSuccess attempt zero i e c q = absurd (ground arith)
attempts-FirstSuccess attempt (suc left) i e c q = elim (Bool-cases (attempt i).cancelled) [
  | inl stop ↦ absurd (ground arith)
  | inr free ↦ elim (outcome-cases (attempt i).result) [
    | inl (d, x) ↦ success_here attempt i left c free (ground arith)
    | inr (inl (m, x)) ↦
        success_later attempt i left c m free x
          (attempts-FirstSuccess attempt left (suc i) (some m) c (rw (free, x) at q))
    | inr (inr (m, x)) ↦ absurd (ground arith)
  ]
]
  where
    outcome-cases :
        (r : Outcome Connected)
        → ((d : Connected) × (r ≡ ok d))
          ⊎ (((m : Bytes) × (r ≡ err m)) ⊎ ((m : Bytes) × (r ≡ panic m)))
    outcome-cases (ok d) = inl (d, refl)
    outcome-cases (err m) = inr (inl (m, refl))
    outcome-cases (panic m) = inr (inr (m, refl))

-- What buildConnectionUDP returns without error is the connection of its first round that
-- succeeds, one of at most four; no round up to it was cancelled, and those before it returned
-- errors.
pub build_connection_udp-FirstSuccess :
    (attempt : ℕ → Attempt) (c : Connected)
    → build_connection_udp attempt ≡ ok c
    → FirstSuccess attempt 0 traversal_attempt_retry c
unfolding build_connection_udp
build_connection_udp-FirstSuccess attempt c e = attempts-FirstSuccess attempt 4 0 none c e
