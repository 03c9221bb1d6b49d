-- ===== src/Pair/TcpExamples.antt =====
-- A race in which the accept and the connect both succeed.
use pipie.Prelude.{
  ◌≤◌, ◌≡◌, refl, ◌↔◌, true, [], ◌∷◌, some, All, text, ok, bytes_equal, Bytes, none,
}
use pipie.CommandLine.{split}
use pipie.Pair.ReusableFd.{
  calls, err_chan_capacity, CallsWith, Returns as FdReturns, set_reusable_fd-Returns_iff,
}
use pipie.Pair.Traverse.{PairInfo}
use pipie.Pair.Tcp.{
  Attempt, accept_at, connect_to_peer, Started, start_accepts, start_connects, start_tcp,
  TcpAnswers, trying, offering, waiting, worker, sending, Race, new_race, connected, taken, Steps,
  no_step, more_steps,
}
use pipie.Pair.TcpReturns.{CanEnd, Returns, new_race-Returns_iff}

abbrev same_network : Bytes → PairInfo
same_network ip = record {
  public_ip = ip;
  public_port = text "4000";
  interface_ip = ip;
  interface_port = text "4000";
  polarity = true;
}

abbrev answers : TcpAnswers
answers = record {
  dialed = ok (text "10.0.0.1:4000");
  message = ok [];
  parsed = ok (record {
    status = true;
    pair_info = same_network (text "10.0.0.1");
    pair2_info = same_network (text "10.0.0.2");
  });
}

abbrev accepting : Attempt
accepting = accept_at (text "10.0.0.1:4000")

abbrev connecting : Attempt
connecting = connect_to_peer (text "10.0.0.2:4000")

abbrev two_attempts : Started
two_attempts = record { attempts = accepting ∷ (connecting ∷ []); total_go = 2 }

answers-start_tcp : start_tcp answers ≡ ok (some two_attempts)
unfolding start_tcp split start_accepts start_connects bytes_equal
answers-start_tcp = refl

-- The accepted connection is taken, and then the dialed one comes up.
abbrev both_up : Race
both_up = record {
  total = 2;
  main = sending 2;
  workers = worker accepting waiting ∷ (worker connecting offering ∷ []);
}

both_up-Steps : Steps (new_race two_attempts) both_up
unfolding new_race
both_up-Steps = more_steps _ _ _ (connected 2 _ [] accepting (worker connecting trying ∷ [])) (
    more_steps _ _ _ (taken 2 [] accepting (worker connecting trying ∷ []))
      (more_steps _ _ _ (connected 2 _ (worker accepting waiting ∷ []) connecting []) (no_step _)))

new_race-Returns_iff_example : Returns both_up ↔ All CanEnd both_up.workers
new_race-Returns_iff_example =
    new_race-Returns_iff answers two_attempts both_up 2 answers-start_tcp both_up-Steps refl

both_up-stuck : ¬ Returns both_up
both_up-stuck r =
    ((new_race-Returns_iff answers two_attempts both_up 2 answers-start_tcp both_up-Steps refl).0
      r).1.0

set_reusable_fd-Returns_iff_example :
    (FdReturns 1 (calls none none) none ↔ ((1 ≤ 1) × CallsWith (calls none none) none))
    × (¬ FdReturns err_chan_capacity (calls none none) none)
set_reusable_fd-Returns_iff_example = set_reusable_fd-Returns_iff 1 (calls none none) none
