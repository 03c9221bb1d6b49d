-- ===== src/Pair/Peers/Roles.antt =====
-- Two ends that have met over UDP, as the TLS ends of lib/pairconnect/pair_conn.go that they become.
use pipie.Prelude.{
  ◌≡◌, ◌≢◌, refl, sym, ap, ◌∙◌, Bool, true, false, not, Option, none, some, Bytes, Outcome, ok,
  panic,
}
use pipie.Pair.Traverse.{PairInfos, infos, Traverse, Connected, finish}
use pipie.Pair.Connect.{tls_role}
use pipie.Pair.Peers.{met, Network, Peers, new_peers, PeersSteps}
use pipie.Pair.Peers.Sound.{IsTold}
use pipie.Pair.Peers.Meet.{PeersSteps-Met}

-- The connection, unless the socket cannot be opened again.
abbrev pub reconnected : Option Bytes → Connected → Outcome Connected
reconnected none c = ok c
reconnected (some e) c = panic e

-- What the two calls of udpTraverse return, and the TLS roles that this leads to, whatever the
-- polarities of the configurations.
pub record Paired (n : Network) (s : Peers) : Type 0 where
  pub left_end : Connected
  pub right_end : Connected
  pub left_finishes :
      (reopen : Option Bytes)
      → finish n.resolve reopen s.left.traverse ≡ reconnected reopen left_end
  pub right_finishes :
      (reopen : Option Bytes)
      → finish n.resolve reopen s.right.traverse ≡ reconnected reopen right_end
  pub to_right : (addr : Bytes) × ((left_end.addr ≡ some addr) × n.Owns true addr)
  pub to_left : (addr : Bytes) × ((right_end.addr ≡ some addr) × n.Owns false addr)
  pub roles : (b b' : Bool) → tls_role (some left_end.meta) b ≢ tls_role (some right_end.meta) b'

told-finishes :
    (n : Network) (side peer : Bool) (t : Traverse) (k : IsTold n side peer t)
    (reopen : Option Bytes)
    → finish n.resolve reopen t
      ≡ reconnected reopen (record { addr = t.last_addr; meta = k.told.pair_info.polarity })
unfolding finish
told-finishes n side peer t k (some e) = refl
told-finishes n side peer t k none = rw (k.is_told) refl

opposite-roles : (m b b' : Bool) → tls_role (some m) b ≢ tls_role (some (not m)) b'
unfolding tls_role
opposite-roles true b b' e = cc
opposite-roles false b b' e = cc

-- Over a network as in the theorem on the meeting, whose rendezvous server gives one polarity to the
-- one end and the opposite to the other: whatever has happened, if both ends have read their pong, then
-- each call of udpTraverse returns a connection to an address of the other end if its socket can be
-- opened again, and panics with that error otherwise; and with the two connections one end becomes the
-- TLS server and the other the TLS client.
pub PeersSteps-Paired :
    (n : Network) (s : Peers) (m : Bool)
    → PeersSteps n new_peers s
    → ((i : PairInfos) → n.Issues false (infos i) → i.pair_info.polarity ≡ m)
    → ((i : PairInfos) → n.Issues true (infos i) → i.pair_info.polarity ≡ not m)
    → s.left.phase ≡ met
    → s.right.phase ≡ met
    → Paired n s
PeersSteps-Paired n s m steps one other at_left at_right =
    let (of_left, of_right) = PeersSteps-Met n s steps in
    let l = of_left at_left in
    let r = of_right at_right in
    let left_meta = one l.told.told l.told.was_issued in
    let right_meta = other r.told.told r.told.was_issued in
    record {
      left_end = record { addr = s.left.traverse.last_addr; meta = l.told.told.pair_info.polarity };
      right_end = record {
        addr = s.right.traverse.last_addr;
        meta = r.told.told.pair_info.polarity;
      };
      left_finishes = told-finishes n false true s.left.traverse l.told;
      right_finishes = told-finishes n true false s.right.traverse r.told;
      to_right = (l.to_peer.addr, (l.to_peer.last, l.to_peer.owned));
      to_left = (r.to_peer.addr, (r.to_peer.last, r.to_peer.owned));
      roles = λ b b' e. opposite-roles m b b' (
          ap (λ x. tls_role (some x) b) (sym left_meta)
          ∙ e
          ∙ ap (λ x. tls_role (some x) b') right_meta);
    }
