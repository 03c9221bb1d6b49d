-- ===== src/Pair/TcpRace.antt =====
-- The goroutines of buildConnectionTCP and the count of the sends that end them.
use mathlib.Core.Path.{subst}
use pipie.Prelude.{
  Outcome-cases, ℕ, ◌+◌, ◌≡◌, refl, sym, ◌∙◌, inl, inr, List, [], ◌∷◌, ◌++◌, map, length, arith,
  Bool-cases, bytes_equal, ◌&&◌, some, ok, length-append,
}
use pipie.Pair.Traverse.{PairInfo, PairInfos}
use pipie.CommandLine.{split}
use pipie.Pair.Tcp.{
  second_part, start_by, Attempt, accept_at, Started, start_accepts, start_connects, start_tcp,
  TcpAnswers, Phase, trying, offering, waiting, ended, left, Worker, worker, receiving, sending,
  Race, new_race, Step, connected, gave_up, taken, told_waiting, told_trying, Steps, no_step,
  more_steps,
}

-- The count of goroutines is kept right.
start_accepts-count :
    (pair1 : PairInfo) → (start_accepts pair1).total_go ≡ length (start_accepts pair1).attempts
unfolding start_accepts
start_accepts-count pair1 = elim (Bool-cases (bytes_equal pair1.interface_port pair1.public_port)) [
  | inl e ↦ rw e refl
  | inr e ↦ rw e refl
]

start_connects-count :
    (pair2 : PairInfo) (s : Started)
    → s.total_go ≡ length s.attempts
    → (start_connects pair2 s).total_go ≡ length (start_connects pair2 s).attempts
unfolding start_connects
start_connects-count pair2 s e =
    elim (Bool-cases (
      bytes_equal pair2.interface_ip pair2.public_ip
      && bytes_equal pair2.interface_port pair2.public_port)) [
        | inl q ↦ rw q omega (arith, e, length-append s.attempts)
        | inr q ↦ rw q omega (arith, e, length-append s.attempts)
      ]

abbrev pub one_if_open : Phase → ℕ
one_if_open ended = 0
one_if_open _ = 1

-- The goroutines that `doneC` has not ended.
abbrev pub open_count : List Worker → ℕ
open_count [] = 0
open_count (worker a p ∷ ws) = one_if_open p + open_count ws

open_count-append : (xs ys : List Worker) → open_count (xs ++ ys) ≡ open_count xs + open_count ys
open_count-append [] ys = omega arith
open_count-append (worker a p ∷ xs) ys = omega (arith, open_count-append xs ys)

-- The sends that are left are the goroutines that are open.
abbrev pub Balanced : Race → Type 0
Balanced s = elim s.main [
  | receiving ↦ s.total ≡ open_count s.workers
  | sending k ↦ k ≡ open_count s.workers
]

pub race_count :
    (before : List Worker) (a : Attempt) (p : Phase) (after : List Worker)
    → open_count (before ++ (worker a p ∷ after))
      ≡ one_if_open p + (open_count before + open_count after)
race_count before a p after = omega (arith, open_count-append before (worker a p ∷ after))

Step-Balanced : (s t : Race) → Step s t → Balanced s → Balanced t
Step-Balanced _ _ (connected n receiving before a after) b =
    omega (arith, b, race_count before a trying after, race_count before a offering after)
Step-Balanced _ _ (connected n (sending k) before a after) b =
    omega (arith, b, race_count before a trying after, race_count before a offering after)
Step-Balanced _ _ (gave_up n receiving before l after) b = omega (
  arith,
  b,
  race_count before (accept_at l) trying after,
  race_count before (accept_at l) left after,
)
Step-Balanced _ _ (gave_up n (sending k) before l after) b = omega (
  arith,
  b,
  race_count before (accept_at l) trying after,
  race_count before (accept_at l) left after,
)
Step-Balanced _ _ (taken n before a after) b =
    omega (arith, b, race_count before a offering after, race_count before a waiting after)
Step-Balanced _ _ (told_waiting n k before a after) b =
    omega (arith, b, race_count before a waiting after, race_count before a ended after)
Step-Balanced _ _ (told_trying n k before a after) b =
    omega (arith, b, race_count before a trying after, race_count before a ended after)

pub Steps-Balanced : (s t : Race) → Steps s t → Balanced s → Balanced t
Steps-Balanced _ _ (no_step s) b = b
Steps-Balanced _ _ (more_steps s t u r rs) b = Steps-Balanced t u rs (Step-Balanced s t r b)

start_by-count :
    (infos : PairInfos) (st : Started) → start_by infos ≡ some st → st.total_go ≡ length st.attempts
start_by-count infos st e =
    let started = start_connects infos.pair2_info (start_accepts infos.pair_info) in
    let count =
      start_connects-count infos.pair2_info (start_accepts infos.pair_info)
        (start_accepts-count infos.pair_info) in
    elim (Bool-cases infos.status) [
      | inl q ↦
          let same : started ≡ st = ground arith in
          subst (λ x. x.total_go ≡ length x.attempts) same count
      | inr q ↦ absurd (ground arith)
    ]

start_tcp-count :
    (a : TcpAnswers) (st : Started) → start_tcp a ≡ ok (some st) → st.total_go ≡ length st.attempts
unfolding start_tcp
start_tcp-count a st e = elim (Outcome-cases a.dialed) [
  | inr f ↦ absurd (ground arith)
  | inl (local_addr, q) ↦ elim (Outcome-cases (second_part (split b':' local_addr))) [
    | inr f ↦ absurd (ground arith)
    | inl (u, q') ↦ elim (Outcome-cases a.message) [
      | inr f ↦ absurd (ground arith)
      | inl (m, q'') ↦ elim (Outcome-cases a.parsed) [
        | inr f ↦ absurd (ground arith)
        | inl (infos, r) ↦ start_by-count infos st (ground arith)
      ]
    ]
  ]
]

open_count-trying :
    (attempts : List Attempt) → open_count (map (λ a. worker a trying) attempts) ≡ length attempts
open_count-trying [] = refl
open_count-trying (a ∷ attempts) = omega (arith, open_count-trying attempts)

new_race-Balanced : (st : Started) → st.total_go ≡ length st.attempts → Balanced (new_race st)
unfolding new_race
new_race-Balanced st e = e ∙ sym (open_count-trying st.attempts)

-- In every state that is reached, the sends that are left are the goroutines that are open.
pub reached-Balanced :
    (a : TcpAnswers) (st : Started) (s : Race)
    → start_tcp a ≡ ok (some st)
    → Steps (new_race st) s
    → Balanced s
reached-Balanced a st s e r =
    Steps-Balanced (new_race st) s r (new_race-Balanced st (start_tcp-count a st e))
