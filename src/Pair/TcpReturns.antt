-- ===== src/Pair/TcpReturns.antt =====
-- When buildConnectionTCP can return.
use mathlib.Core.Path.{subst}
use pipie.Prelude.{ℕ, zero, suc, ◌≡◌, refl, sym, ap, ◌↔◌, List, [], ◌∷◌, ◌++◌, All, arith, some, ok}
use pipie.Pair.Tcp.{
  Attempt, accept_at, Started, start_tcp, TcpAnswers, Phase, trying, offering, waiting, ended, left,
  Worker, worker, Main, receiving, sending, Race, new_race, race_at, Step, connected, gave_up,
  taken, told_waiting, told_trying, Steps, no_step, more_steps,
}
use pipie.Pair.TcpRace.{
  one_if_open, open_count, Balanced, race_count, Steps-Balanced, reached-Balanced,
}

-- A goroutine that neither holds a connection that nobody takes nor has gone.
abbrev pub CanEnd : Worker → Type 0
CanEnd (worker a offering) = ⊥
CanEnd (worker a left) = ⊥
CanEnd (worker a _) = Unit

All-at :
    (before : List Worker) (w : Worker) (after : List Worker)
    → All CanEnd (before ++ (w ∷ after))
    → CanEnd w
All-at [] w after h = h.0
All-at (v ∷ before) w after h = All-at before w after h.1

All-replace :
    (before : List Worker) (v w : Worker) (after : List Worker)
    → CanEnd w
    → All CanEnd (before ++ (v ∷ after))
    → All CanEnd (before ++ (w ∷ after))
All-replace [] v w after c h = (c, h.1)
All-replace (u ∷ before) v w after c h = (h.0, All-replace before v w after c h.1)

abbrev IsSending : Main → Type 0
IsSending receiving = ⊥
IsSending (sending k) = Unit

Step-IsSending : (s t : Race) → Step s t → IsSending s.main → IsSending t.main
Step-IsSending _ _ (connected n m before a after) i = i
Step-IsSending _ _ (gave_up n m before l after) i = i
Step-IsSending _ _ (taken n before a after) i = tt
Step-IsSending _ _ (told_waiting n k before a after) i = tt
Step-IsSending _ _ (told_trying n k before a after) i = tt

-- Behind the first connection no goroutine gets out of its trouble.
Step-CanEnd :
    (s t : Race) → Step s t → IsSending s.main → All CanEnd t.workers → All CanEnd s.workers
Step-CanEnd _ _ (connected n m before a after) i h =
    absurd (All-at before (worker a offering) after h)
Step-CanEnd _ _ (gave_up n m before l after) i h =
    absurd (All-at before (worker (accept_at l) left) after h)
Step-CanEnd _ _ (taken n before a after) i h = absurd i
Step-CanEnd _ _ (told_waiting n k before a after) i h =
    All-replace before (worker a ended) (worker a waiting) after tt h
Step-CanEnd _ _ (told_trying n k before a after) i h =
    All-replace before (worker a ended) (worker a trying) after tt h

Steps-CanEnd :
    (s t : Race) → Steps s t → IsSending s.main → All CanEnd t.workers → All CanEnd s.workers
Steps-CanEnd _ _ (no_step s) i h = h
Steps-CanEnd _ _ (more_steps s t u r rs) i h =
    Step-CanEnd s t r i (Steps-CanEnd t u rs (Step-IsSending s t r i) h)

none_open : (ws : List Worker) → open_count ws ≡ 0 → All CanEnd ws
none_open [] e = tt
none_open (worker a ended ∷ ws) e = (tt, none_open ws (omega (arith, e)))
none_open (worker a trying ∷ ws) e = absurd (omega (arith, e))
none_open (worker a offering ∷ ws) e = absurd (omega (arith, e))
none_open (worker a waiting ∷ ws) e = absurd (omega (arith, e))
none_open (worker a left ∷ ws) e = absurd (omega (arith, e))

-- A goroutine that is open and takes the next value of `doneC`.
data Ready : Phase → Type 0 where
  is_trying : Ready trying
  is_waiting : Ready waiting

record Found (ws : List Worker) : Type 0 where
  before : List Worker
  attempt : Attempt
  phase : Phase
  after : List Worker
  place : ws ≡ before ++ (worker attempt phase ∷ after)
  ready : Ready phase

Found-here : (a : Attempt) (p : Phase) (ws : List Worker) → Ready p → Found (worker a p ∷ ws)
Found-here a p ws r = record {
  before = [];
  attempt = a;
  phase = p;
  after = ws;
  place = refl;
  ready = r;
}

find : (k : ℕ) (ws : List Worker) → All CanEnd ws → suc k ≡ open_count ws → Found ws
find k [] h e = absurd (omega (arith, e))
find k (worker a trying ∷ ws) h e = Found-here a trying ws is_trying
find k (worker a waiting ∷ ws) h e = Found-here a waiting ws is_waiting
find k (worker a offering ∷ ws) h e = absurd h.0
find k (worker a left ∷ ws) h e = absurd h.0
find k (worker a ended ∷ ws) h e =
    let rest = find k ws h.1 (omega (arith, e)) in
    record {
      before = worker a ended ∷ rest.before;
      attempt = rest.attempt;
      phase = rest.phase;
      after = rest.after;
      place = ap (λ l. worker a ended ∷ l) rest.place;
      ready = rest.ready;
    }

-- The run that tells one goroutine after another.
told :
    (n k : ℕ) (before : List Worker) (a : Attempt) (p : Phase) (after : List Worker)
    → Ready p
    → Step
        (race_at n (sending (suc k)) before (worker a p) after)
        (race_at n (sending k) before (worker a ended) after)
told n k before a _ after is_trying = told_trying n k before a after
told n k before a _ after is_waiting = told_waiting n k before a after

open_of_Ready : (p : Phase) → Ready p → one_if_open p ≡ 1
open_of_Ready _ is_trying = refl
open_of_Ready _ is_waiting = refl

abbrev pub Returns : Race → Type 0
Returns s = (t : Race) × Steps s t × (t.main ≡ sending 0)

tell_each :
    (n k : ℕ) (ws : List Worker)
    → All CanEnd ws
    → k ≡ open_count ws
    → Returns (record { total = n; main = sending k; workers = ws })
tell_each n zero ws h e = (_, no_step _, refl)
tell_each n (suc k) ws h e =
    let f = find k ws h e in
    let rest = f.before ++ (worker f.attempt ended ∷ f.after) in
    let here : All CanEnd (f.before ++ (worker f.attempt f.phase ∷ f.after)) =
      subst (All CanEnd) f.place h in
    let count : k ≡ open_count rest = omega (
      arith,
      e,
      ap open_count f.place,
      open_of_Ready f.phase f.ready,
      race_count f.before f.attempt f.phase f.after,
      race_count f.before f.attempt ended f.after,
    ) in
    let (t, steps, q) =
      tell_each n k rest (All-replace f.before _ (worker f.attempt ended) f.after tt here) count in
    rw f.place (t, more_steps _ _ _ (told n k f.before f.attempt f.phase f.after f.ready) steps, q)

balance : (s : Race) (k : ℕ) → Balanced s → s.main ≡ sending k → k ≡ open_count s.workers
balance s k b q =
    subst
      (λ m. elim m [
        | receiving ↦ s.total ≡ open_count s.workers
        | sending j ↦ j ≡ open_count s.workers
      ])
      q b

-- After buildConnectionTCP has taken a connection, it can still return exactly if no goroutine holds
-- another connection that it offers and none has ended on an error of its listener: with one that
-- has, it waits for ever.
pub new_race-Returns_iff :
    (a : TcpAnswers) (st : Started) (s : Race) (k : ℕ)
    → start_tcp a ≡ ok (some st)
    → Steps (new_race st) s
    → s.main ≡ sending k
    → Returns s ↔ All CanEnd s.workers
new_race-Returns_iff a st s k e r q =
    let b = reached-Balanced a st s e r in
    let count : k ≡ open_count s.workers = balance s k b q in
    let i : IsSending s.main = subst IsSending (sym q) tt in
    (
      λ (t, steps, z).
          Steps-CanEnd s t steps i
            (none_open t.workers (sym (balance t 0 (Steps-Balanced s t steps b) z))),
      λ h. rw q (tell_each s.total k s.workers h count),
    )
