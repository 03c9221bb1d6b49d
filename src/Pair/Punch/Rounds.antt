-- ===== src/Pair/Punch/Rounds.antt =====
-- The rounds of buildConnectionUDP, each of which is a run of udpTraverse.

use pipie.Prelude.{ℕ, ◌<◌, List, Bytes, ok, err}
use pipie.Pair.Traverse.{Connected, traversal_attempt_retry}
use pipie.Pair.Punch.{Datagram, PunchAnswers, Entries, udp_traverse}
use pipie.Pair.Punch.Ends.{Departs}

module _ (marshal : Entries → Bytes) (pair_id server_address : Bytes)
    (answers : ℕ → PunchAnswers) where
  abbrev written_in : ℕ → List Datagram
  written_in i = (udp_traverse marshal pair_id server_address (answers i)).written

  -- The last round connects, those before it leave with an error.
  pub record RoundsDepart (c : Connected) : Type 0 where
    pub round : ℕ
    pub in_time : round < traversal_attempt_retry
    pub connected : Departs marshal pair_id server_address (answers round) (ok c) (written_in round)
    pub earlier :
        (i : ℕ)
        → i < round
        → (e : Bytes) × Departs marshal pair_id server_address (answers i) (err e) (written_in i)
