-- ===== src/Pair/Peers/Connect.antt =====
-- Two ends of a UDP traversal that try, and whose datagrams arrive, both connect.
use mathlib.Core.List.{Memᴰ}
use pipie.Prelude.{ℕ, suc, ◌≡◌, ap, ◌∙◌, ◌⊎◌, inl, inr, true, false, some, Bytes, text}
use pipie.Pair.Traverse.{from_peer, pong}
use pipie.Pair.Peers.{
  reading, met, End, hear, send_round, Network, pings, pongs, hears, sends, Peers, PeersStep,
  left_moves, right_moves, PeersSteps, done, then_step,
}
use pipie.Pair.Peers.Rounds.{Tries, ping_round, pong_round, hear_ping, hear_pong}

-- Steps lead to a state in which both are connected.
pub record Meets (n : Network) (s : Peers) : Type 0 where
  pub then_peers : Peers
  pub steps : PeersSteps n s then_peers
  pub left_met : then_peers.left.phase ≡ met
  pub right_met : then_peers.right.phase ≡ met

pub PeersSteps-trans :
    {n : Network} {s t u : Peers} → PeersSteps n s t → PeersSteps n t u → PeersSteps n s u
PeersSteps-trans a (done _) = a
PeersSteps-trans a (then_step b st) = then_step (PeersSteps-trans a b) st

module _ (n : Network) (l r : Bytes) (left_owns : n.Owns false l) (right_owns : n.Owns true r) where
  after : {s t : Peers} → PeersSteps n s t → Meets n t → Meets n s
  after steps m = record {
    then_peers = m.then_peers;
    steps = PeersSteps-trans steps m.steps;
    left_met = m.left_met;
    right_met = m.right_met;
  }

  one_step : {s t : Peers} → PeersStep n s t → Meets n t → Meets n s
  one_step st m = after (then_step (done _) st) m

  abbrev Busy : End → Type 0
  Busy e = (e.phase ≡ reading) × ((e.traverse.state ≡ 1) ⊎ (e.traverse.state ≡ 2))

  -- A pong on its way to the left end connects both.
  left_first :
      (s : Peers) (to : Bytes)
      → Busy s.left
      → Busy s.right
      → n.Owns false to
      → Memᴰ (pong to) s.right.sent
      → Meets n s
  left_first s to bl br own m =
      let e = hear n.resolve s.left (from_peer (text "pong")) r in
      let f = hear n.resolve s.right (from_peer (text "pong")) l in
      let le = hear_pong n.resolve s.left r bl.1 in
      let ri = hear_pong n.resolve s.right l br.1 in
      record {
        then_peers = record { left = e; right = f };
        steps =
            then_step
              (then_step (done s)
                (left_moves s e (hears s.left _ r bl.0 (pongs to r m own right_owns))))
              (right_moves (record s { left = e }) f
                (hears s.right _ l br.0 (pongs r l le.back right_owns left_owns)));
        left_met = le.is_met;
        right_met = ri.is_met;
      }

  right_first :
      (s : Peers) (to : Bytes)
      → Busy s.left
      → Busy s.right
      → n.Owns true to
      → Memᴰ (pong to) s.left.sent
      → Meets n s
  right_first s to bl br own m =
      let e = hear n.resolve s.left (from_peer (text "pong")) r in
      let f = hear n.resolve s.right (from_peer (text "pong")) l in
      let le = hear_pong n.resolve s.left r bl.1 in
      let ri = hear_pong n.resolve s.right l br.1 in
      record {
        then_peers = record { left = e; right = f };
        steps =
            then_step
              (then_step (done s)
                (right_moves s f (hears s.right _ l br.0 (pongs to l m own left_owns))))
              (left_moves (record s { right = f }) e
                (hears s.left _ r bl.0 (pongs l r ri.back left_owns right_owns)));
        left_met = le.is_met;
        right_met = ri.is_met;
      }

  -- The right end has turned to pongs.
  right_turned :
      (s : Peers) (left : ℕ)
      → Busy s.left
      → s.right.phase ≡ reading
      → s.right.rounds ≡ suc left
      → s.right.traverse.state ≡ 2
      → s.right.traverse.last_addr ≡ some l
      → Meets n s
  right_turned s left bl free more two last =
      let f = send_round s.right left in
      let sent = pong_round s.right left l last two in
      one_step (right_moves s f (sends s.right left free more)) (
        left_first (record s { right = f }) l bl
          (sent.reads ∙ free, inr (ap (λ t. t.state) sent.same ∙ two)) left_owns sent.member)

  -- The left end pings.
  left_pings :
      (s : Peers) (one : s.left.traverse.state ≡ 1)
      → Tries n false true s.left
      → Tries n true false s.right
      → Meets n s
  left_pings s one tl tr =
      let e = send_round s.left tl.left in
      let sent = ping_round s.left tl.left tl.to_peer.addr tl.to_peer.last one in
      let f = hear n.resolve s.right (from_peer (text "ping")) l in
      let turned = hear_ping n.resolve s.right l tr.busy in
      let t : Peers = record { left = e; right = f } in
      after
        (then_step (then_step (done s) (left_moves s e (sends s.left tl.left tl.reads tl.more))) (
          right_moves (record s { left = e }) f
            (hears s.right _ l tr.reads
              (pings tl.to_peer.addr l sent.member tl.to_peer.owned left_owns))))
        (right_turned t tr.left (sent.reads ∙ tl.reads, inl (ap (λ u. u.state) sent.same ∙ one))
          (turned.reads ∙ tr.reads) (turned.rounds ∙ tr.more) turned.two turned.last)

  -- The left end pongs.
  left_pongs :
      (s : Peers) (two : s.left.traverse.state ≡ 2)
      → Tries n false true s.left
      → Tries n true false s.right
      → Meets n s
  left_pongs s two tl tr =
      let e = send_round s.left tl.left in
      let sent = pong_round s.left tl.left tl.to_peer.addr tl.to_peer.last two in
      one_step (left_moves s e (sends s.left tl.left tl.reads tl.more)) (
        right_first (record s { left = e }) tl.to_peer.addr
          (sent.reads ∙ tl.reads, inr (ap (λ u. u.state) sent.same ∙ two)) (tr.reads, tr.busy)
          tl.to_peer.owned sent.member)

-- Two ends that read, each with a round of pings or pongs left and an address of the other: from any
-- such state, whatever was lost before, some steps lead to a state in which both are connected.
pub Tries-Meets :
    (n : Network) (l r : Bytes) (s : Peers)
    → n.Owns false l
    → n.Owns true r
    → Tries n false true s.left
    → Tries n true false s.right
    → Meets n s
Tries-Meets n l r s lo ro tl tr = elim tl.busy [
  | inl one ↦ left_pings n l r lo ro s one tl tr
  | inr two ↦ left_pongs n l r lo ro s two tl tr
]
