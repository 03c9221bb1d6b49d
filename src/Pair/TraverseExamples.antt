-- ===== src/Pair/TraverseExamples.antt =====
-- Instances of the theorems on the UDP traversal.

use pipie.Prelude.{
  ℕ, zero, suc, ◌≡◌, refl, true, false, some, List, [], ◌∷◌, Bytes, text, Option, ok, err,
  bytes_equal,
}
use pipie.Pair.Traverse.{
  PairInfo, PairInfos, Read, datagram, infos, from_peer, new_traverse, Connected, traverse_loop,
  take_message, take_infos, take_from_peer, Attempt, attempts, build_connection_udp,
}

abbrev end_info : PairInfo
end_info = record {
  public_ip = text "1.2.3.4";
  public_port = text "5";
  interface_ip = text "10.0.0.1";
  interface_port = text "5";
  polarity = true;
}

abbrev peer_info : PairInfo
peer_info = record end_info { public_ip = text "4.3.2.1"; polarity = false }

abbrev told : PairInfos
told = record { status = true; pair_info = end_info; pair2_info = peer_info }

abbrev peer_told : PairInfos
peer_told = record { status = true; pair_info = peer_info; pair2_info = end_info }

abbrev any_address : Bytes → Option Bytes
any_address b = some b

-- A ping that comes too early, the pairInfo, a ping and a pong from another address.
abbrev reads : List Read
reads =
    datagram (from_peer (text "ping")) (text "a")
    ∷ datagram (infos told) (text "server")
    ∷ datagram (from_peer (text "ping")) (text "a")
    ∷ datagram (from_peer (text "pong")) (text "b")
    ∷ []

abbrev connected : Connected
connected = record { addr = some (text "b"); meta = true }

reads_connect :
    traverse_loop any_address reads new_traverse
    ≡ some (
        ok (record {
          pair_info = some told;
          state = 3;
          last_addr = some (text "b");
          last_addr2 = some (text "10.0.0.1:5");
        }))
unfolding traverse_loop take_message take_infos take_from_peer bytes_equal
reads_connect = refl

-- The first round fails, and all later ones connect.
abbrev second_connects : ℕ → Attempt
second_connects zero = record { cancelled = false; result = err (text "timeout") }
second_connects (suc i) = record { cancelled = false; result = ok connected }

second_connects_lem : build_connection_udp second_connects ≡ ok connected
unfolding build_connection_udp attempts
second_connects_lem = refl
