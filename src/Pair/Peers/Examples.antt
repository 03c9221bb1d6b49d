-- ===== src/Pair/Peers/Examples.antt =====
-- Two ends with one address each, the theorems at a run of theirs.

use pipie.Prelude.{◌≡◌, refl, inl, Bool, true, false, some, Bytes, text, bytes_equal, ap}
use pipie.Pair.Traverse.{PairInfo, PairInfos, Message, from_peer, infos, take_message, take_infos}
use pipie.Pair.Peers.{
  End, new_end, hear, Network, issued, hears, Peers, new_peers, left_moves, right_moves, PeersSteps,
  done, then_step,
}
use pipie.Pair.Peers.Meet.{Met, PeersSteps-Met}
use pipie.Pair.Peers.Roles.{Paired, PeersSteps-Paired}
use pipie.Pair.Peers.Rounds.{Tries}
use pipie.Pair.Peers.Connect.{Meets, PeersSteps-trans, Tries-Meets}

abbrev left_info : PairInfo
left_info = record {
  public_ip = text "1.2.3.4";
  public_port = text "5";
  interface_ip = text "1.2.3.4";
  interface_port = text "5";
  polarity = true;
}

abbrev right_info : PairInfo
right_info = record left_info {
  public_ip = text "4.3.2.1";
  interface_ip = text "4.3.2.1";
  polarity = false;
}

abbrev left_told : PairInfos
left_told = record { status = true; pair_info = left_info; pair2_info = right_info }

abbrev right_told : PairInfos
right_told = record { status = true; pair_info = right_info; pair2_info = left_info }

abbrev address_of : Bool → Bytes
address_of false = text "1.2.3.4:5"
address_of true = text "4.3.2.1:5"

abbrev told_to : Bool → PairInfos
told_to false = left_told
told_to true = right_told

abbrev Told : Bool → Message → Type 0
Told side m = m ≡ infos (told_to side)

no_word-Told : (side : Bool) (word : Bytes) → ¬ Told side (from_peer word)
no_word-Told side word e = cc

abbrev network : Network
network = record {
  resolve = λ b. some b;
  Owns = λ side addr. addr ≡ address_of side;
  Issues = Told;
  no_word = no_word-Told;
}

abbrev polarity_of : Message → Bool
polarity_of (infos i) = i.pair_info.polarity
polarity_of _ = false

-- Both have got their pairInfo.
abbrev left_ready : End
left_ready = hear network.resolve new_end (infos left_told) (text "server")

abbrev right_ready : End
right_ready = hear network.resolve new_end (infos right_told) (text "server")

abbrev ready : Peers
ready = record { left = left_ready; right = right_ready }

ready-reached : PeersSteps network new_peers ready
ready-reached =
    then_step
      (then_step (done new_peers) (
        left_moves new_peers left_ready
          (hears new_end (infos left_told) (text "server") refl (issued _ _ refl))))
      (right_moves (record new_peers { left = left_ready }) right_ready
        (hears new_end (infos right_told) (text "server") refl (issued _ _ refl)))

left-Tries : Tries network false true ready.left
unfolding hear take_message take_infos bytes_equal
left-Tries = record {
  reads = refl;
  left = 7;
  more = refl;
  busy = inl refl;
  to_peer = record { addr = address_of true; last = refl; owned = refl };
}

right-Tries : Tries network true false ready.right
unfolding hear take_message take_infos bytes_equal
right-Tries = record {
  reads = refl;
  left = 7;
  more = refl;
  busy = inl refl;
  to_peer = record { addr = address_of false; last = refl; owned = refl };
}

abbrev meeting : Meets network ready
meeting =
    Tries-Meets network (address_of false) (address_of true) ready refl refl left-Tries right-Tries

Tries-Meets_example : Meets network ready
Tries-Meets_example =
    Tries-Meets network (address_of false) (address_of true) ready refl refl left-Tries right-Tries

PeersSteps-Met_example : Met network false true meeting.then_peers.left meeting.then_peers.right
PeersSteps-Met_example =
    (PeersSteps-Met network meeting.then_peers (PeersSteps-trans ready-reached meeting.steps)).0
      meeting.left_met

PeersSteps-Paired_example : Paired network meeting.then_peers
PeersSteps-Paired_example =
    PeersSteps-Paired network meeting.then_peers true (PeersSteps-trans ready-reached meeting.steps)
      (λ i e. ap polarity_of e) (λ i e. ap polarity_of e) meeting.left_met meeting.right_met
