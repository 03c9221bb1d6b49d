-- ===== src/Pair/Peers/Meet.antt =====
-- When one of two ends of a UDP traversal has a connection, the two have met.
use mathlib.Core.List.{Memᴰ}
use mathlib.Core.List.Memᴰ.{not-nil}
use mathlib.Core.Path.{subst}
use pipie.Prelude.{◌≡◌, inl, inr, true, false, List, [], Bytes, Bool}
use pipie.Pair.Traverse.{Sent, ping, pong}
use pipie.Pair.Peers.{
  met, End, Network, Peers, new_peers, PeersStep, left_moves, right_moves, PeersSteps, done,
  then_step,
}
use pipie.Pair.Peers.Sound.{
  Contacted, by_ping, by_pong, IsTold, HasPeer, Sound, Sound-Grows, new_end-Sound,
}
use pipie.Pair.Peers.Keeps.{Moves-Sound, Moves-grows}

module _ (n : Network) where
  -- An end of the side `side` and its peer: the end's address is one of the peer, both were told of
  -- each other, the peer has sent it a pong, and it has sent the peer a ping or a pong.
  pub record Met (side peer : Bool) (e f : End) : Type 0 where
    pub to_peer : HasPeer n side peer e.traverse
    pub told : IsTold n side peer e.traverse
    pub peer_told : IsTold n peer side f.traverse
    pub to : Bytes
    pub owned : n.Owns side to
    pub answer : Memᴰ (pong to) f.sent
    pub contacted : Contacted n peer side e.sent

  pub record BothSound (s : Peers) : Type 0 where
    pub left_sound : Sound n false true s.right.sent s.left
    pub right_sound : Sound n true false s.left.sent s.right

  PeersStep-BothSound : {s t : Peers} → PeersStep n s t → BothSound s → BothSound t
  PeersStep-BothSound (left_moves s e m) b = record {
    left_sound = Moves-Sound n false true m b.left_sound;
    right_sound =
        Sound-Grows n true false s.right (λ x h. Moves-grows n false true x m h) b.right_sound;
  }
  PeersStep-BothSound (right_moves s e m) b = record {
    left_sound =
        Sound-Grows n false true s.left (λ x h. Moves-grows n true false x m h) b.left_sound;
    right_sound = Moves-Sound n true false m b.right_sound;
  }

  PeersSteps-BothSound : {s t : Peers} → PeersSteps n s t → BothSound s → BothSound t
  PeersSteps-BothSound (done s) b = b
  PeersSteps-BothSound (then_step steps st) b =
      PeersStep-BothSound st (PeersSteps-BothSound steps b)

  pub new_peers-BothSound : {s : Peers} → PeersSteps n new_peers s → BothSound s
  new_peers-BothSound steps = PeersSteps-BothSound steps (record {
    left_sound = new_end-Sound n false true [];
    right_sound = new_end-Sound n true false [];
  })

  -- Who has sent something was told.
  sender-IsTold :
      (side peer : Bool) (sent : List Sent) (e : End) (x : Sent)
      → Sound n side peer sent e
      → Memᴰ x e.sent
      → IsTold n side peer e.traverse
  sender-IsTold side peer sent e x s m = elim s.known [
    | inl z ↦ absurd (not-nil (subst (Memᴰ x) z.1 m))
    | inr k ↦ k
  ]

  contact-IsTold :
      (side peer : Bool) (sent : List Sent) (e : End)
      → Sound n side peer sent e
      → Contacted n peer side e.sent
      → IsTold n side peer e.traverse
  contact-IsTold side peer sent e s (by_ping to o m) = sender-IsTold side peer sent e (ping to) s m
  contact-IsTold side peer sent e s (by_pong to o m) = sender-IsTold side peer sent e (pong to) s m

  Sound-Met :
      (side peer : Bool) (e f : End)
      → Sound n side peer f.sent e
      → Sound n peer side e.sent f
      → e.phase ≡ met
      → Met side peer e f
  Sound-Met side peer e f s r is_met =
      let a = s.when_met is_met in
      let c = r.pongs_back a.to a.answer in
      record {
        to_peer = a.to_peer;
        told = contact-IsTold side peer f.sent e s c;
        peer_told = sender-IsTold peer side e.sent f (pong a.to) r a.answer;
        to = a.to;
        owned = a.owned;
        answer = a.answer;
        contacted = c;
      }

-- Over a network that may lose, delay, repeat and reorder the datagrams of two ends, and on which
-- nobody but the two sends pings or pongs: whatever has happened, if one of them has a connection
-- then it is to an address of the other, both hold a pairInfo of the server, the other has sent a pong
-- to one of its addresses, and it has sent a ping or a pong to one of the other's.
pub PeersSteps-Met :
    (n : Network) (s : Peers)
    → PeersSteps n new_peers s
    → (s.left.phase ≡ met → Met n false true s.left s.right)
      × (s.right.phase ≡ met → Met n true false s.right s.left)
PeersSteps-Met n s steps =
    let b = new_peers-BothSound n steps in
    (
      Sound-Met n false true s.left s.right b.left_sound b.right_sound,
      Sound-Met n true false s.right s.left b.right_sound b.left_sound,
    )
