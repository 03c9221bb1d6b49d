-- ===== src/Pair/Tcp.antt =====
-- buildConnectionTCP, connect and accept of lib/pairconnect/conn_builder.go: the addresses that are
-- tried, and the goroutines, which hand a connection and then the end to each other over two
-- channels without a buffer.
use pipie.Prelude.{
  ℕ, suc, ◌+◌, ◌&&◌, Option, none, some, List, [], ◌∷◌, ◌++◌, map, Bytes, bytes_equal, text,
  Outcome, ok, err, panic, if◌then◌else◌,
}
use pipie.CommandLine.{split}
use pipie.Pair.Traverse.{PairInfo, PairInfos}

-- A goroutine and the address that it listens on or dials.
pub data Attempt : Type 0 where
  accept_at : Bytes → Attempt
  connect_to_peer : Bytes → Attempt

abbrev pub address : Bytes → Bytes → Bytes
address ip port = ip ++ (b':' ∷ port)

-- What is started, and the count that is kept of it.
pub record Started : Type 0 where
  pub attempts : List Attempt
  pub total_go : ℕ

unfoldable pub start_accepts : PairInfo → Started
start_accepts pair1 =
    if bytes_equal pair1.interface_port pair1.public_port
    then (record {
      attempts = accept_at (address pair1.interface_ip pair1.interface_port) ∷ [];
      total_go = 1;
    })
    else (record {
      attempts =
          accept_at (address pair1.interface_ip pair1.interface_port)
          ∷ (accept_at (address pair1.interface_ip pair1.public_port) ∷ []);
      total_go = 2;
    })

unfoldable pub start_connects : PairInfo → Started → Started
start_connects pair2 s =
    if bytes_equal pair2.interface_ip pair2.public_ip
      && bytes_equal pair2.interface_port pair2.public_port
    then (record {
      attempts =
          s.attempts ++ (connect_to_peer (address pair2.interface_ip pair2.interface_port) ∷ []);
      total_go = s.total_go + 1;
    })
    else (record {
      attempts =
          s.attempts
          ++ (connect_to_peer (address pair2.interface_ip pair2.interface_port)
              ∷ (connect_to_peer (address pair2.public_ip pair2.public_port) ∷ []));
      total_go = s.total_go + 2;
    })

-- What the rendezvous server's connection gives: its local address, a line, and what that says.
pub record TcpAnswers : Type 0 where
  pub dialed : Outcome Bytes
  pub message : Outcome Bytes
  pub parsed : Outcome PairInfos

abbrev pub second_part : List Bytes → Outcome (Unit {0})
second_part (ip ∷ (port ∷ rest)) = ok tt
second_part _ = panic (text "index out of range")

-- `none` is the nil connection that comes with a nil error when the server's status is false.
abbrev pub start_by : PairInfos → Option Started
start_by infos =
    if infos.status
    then some (start_connects infos.pair2_info (start_accepts infos.pair_info))
    else none

unfoldable pub start_tcp : TcpAnswers → Outcome (Option Started)
unfolding split start_accepts start_connects
start_tcp a = elim a.dialed [
  | ok local_addr ↦ elim (second_part (split b':' local_addr)) [
    | ok u ↦ elim a.message [
      | ok line ↦ elim a.parsed [
        | ok infos ↦ ok (start_by infos)
        | err e ↦ err e
        | panic e ↦ panic e
      ]
      | err e ↦ err e
      | panic e ↦ panic e
    ]
    | err e ↦ err e
    | panic e ↦ panic e
  ]
  | err e ↦ err e
  | panic e ↦ panic e
]

-- Where a goroutine is: in its loop; with a connection that it offers on `result`; behind that,
-- waiting on `doneC`; ended by `doneC`; or ended by an error of its listener.
pub data Phase : Type 0 where
  trying offering waiting ended left : Phase

pub data Worker : Type 0 where
  worker : Attempt → Phase → Worker

-- buildConnectionTCP waits on `result`, or has so many sends on `doneC` before it; at none it
-- returns.
pub data Main : Type 0 where
  receiving : Main
  sending : ℕ → Main

pub record Race : Type 0 where
  pub total : ℕ
  pub main : Main
  pub workers : List Worker

unfoldable pub new_race : Started → Race
new_race s = record {
  total = s.total_go;
  main = receiving;
  workers = map (λ a. worker a trying) s.attempts;
}

-- A race with one worker named.
abbrev pub race_at : ℕ → Main → List Worker → Worker → List Worker → Race
race_at n m before w after = record { total = n; main = m; workers = before ++ (w ∷ after) }

-- One step: a channel passes a value between two that are ready, or a goroutine goes on alone. A
-- dial that fails is tried again; a listener that fails, or an accept that fails for another reason
-- than its deadline, ends its goroutine.
pub data Step : Race → Race → Type 0 where
  connected :
      (n : ℕ) (m : Main) (before : List Worker) (a : Attempt) (after : List Worker)
      → Step
          (race_at n m before (worker a trying) after)
          (race_at n m before (worker a offering) after)
  gave_up :
      (n : ℕ) (m : Main) (before : List Worker) (local : Bytes) (after : List Worker)
      → Step
          (race_at n m before (worker (accept_at local) trying) after)
          (race_at n m before (worker (accept_at local) left) after)
  taken :
      (n : ℕ) (before : List Worker) (a : Attempt) (after : List Worker)
      → Step
          (race_at n receiving before (worker a offering) after)
          (race_at n (sending n) before (worker a waiting) after)
  told_waiting :
      (n k : ℕ) (before : List Worker) (a : Attempt) (after : List Worker)
      → Step
          (race_at n (sending (suc k)) before (worker a waiting) after)
          (race_at n (sending k) before (worker a ended) after)
  told_trying :
      (n k : ℕ) (before : List Worker) (a : Attempt) (after : List Worker)
      → Step
          (race_at n (sending (suc k)) before (worker a trying) after)
          (race_at n (sending k) before (worker a ended) after)

pub data Steps : Race → Race → Type 0 where
  no_step : (s : Race) → Steps s s
  more_steps : (s t u : Race) → Step s t → Steps t u → Steps s u
