-- ===== src/Pair/Punch/Examples.antt =====
-- Runs of a UDP traversal with what they write, and the theorem at one that fails.
use pipie.Prelude.{true, none, some, List, [], ◌∷◌, ◌++◌, Bytes, text, ok, err, ℕ, zero, suc, false}
use pipie.Pair.Traverse.{
  PairInfo, PairInfos, Read, datagram, read_failed, infos, from_peer, Attempt,
}
use pipie.Pair.Punch.{Datagram, PunchAnswers, Entries}

-- The values, as another codec would write them.
abbrev lines : Entries → Bytes
lines [] = []
lines (e ∷ es) = e.1 ++ (text ";" ++ lines es)

abbrev end_info : PairInfo
end_info = record {
  public_ip = text "1.2.3.4";
  public_port = text "5";
  interface_ip = text "10.0.0.1";
  interface_port = text "5";
  polarity = true;
}

abbrev told : PairInfos
told = record {
  status = true;
  pair_info = end_info;
  pair2_info = record end_info { public_ip = text "4.3.2.1" };
}

abbrev answers : List Read → PunchAnswers
answers reads = record {
  resolve = λ b. some b;
  dialed = ok (text "10.0.0.1:5");
  listen_error = none;
  register_error = none;
  reads = reads;
  reopen_error = none;
  cancel_goes_out = true;
  rounds = λ i. 1;
  late_rounds = 1;
}

abbrev timed_out : PunchAnswers
timed_out = answers (datagram (infos told) (text "s:1") ∷ (read_failed (text "closed") ∷ []))

abbrev answered : PunchAnswers
answered = answers (
    datagram (infos told) (text "s:1")
    ∷ (datagram (from_peer (text "pong")) (text "4.3.2.1:9") ∷ []))

-- A round of pings behind the pairInfo.
abbrev pinged : List Datagram
pinged =
    record { destination = some (text "4.3.2.1:5"); payload = text "ping;id;" }
    ∷ (record { destination = some (text "10.0.0.1:5"); payload = text "ping;id;" } ∷ [])

-- The first round times out, and the later ones connect.
abbrev by_round : ℕ → PunchAnswers
by_round zero = timed_out
by_round (suc i) = answered

abbrev attempts_by_round : ℕ → Attempt
attempts_by_round zero = record { cancelled = false; result = err (text "closed") }
attempts_by_round (suc i) = record {
  cancelled = false;
  result = ok (record { addr = some (text "4.3.2.1:9"); meta = true });
}
