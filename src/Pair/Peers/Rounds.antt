-- ===== src/Pair/Peers/Rounds.antt =====
-- What a round of the ping goroutine sends, and what a ping or a pong makes of its reader.
use mathlib.Core.List.{Memᴰ}
use mathlib.Core.Path.{subst}
use pipie.Prelude.{
  ℕ, suc, ◌≡◌, refl, sym, ap, ◌⊎◌, inl, inr, ◌==◌, ==_iff, Bool, false, Option, none, some, ◌++◌,
  Bytes, text, bytes_equal, arith,
}
use pipie.Pair.Traverse.{
  from_peer, Traverse, take_from_peer, take_message, Sent, ping, pong, to_both, ping_pong_round,
}
use pipie.Pair.Peers.{reading, met, End, hear, round_to, send_round, Network}
use pipie.Pair.Peers.Sound.{HasPeer}

-- An end sends pings or pongs to its peer, in one more round at least.
pub record Tries (n : Network) (side peer : Bool) (e : End) : Type 0 where
  pub reads : e.phase ≡ reading
  pub left : ℕ
  pub more : e.rounds ≡ suc left
  pub busy : (e.traverse.state ≡ 1) ⊎ (e.traverse.state ≡ 2)
  pub to_peer : HasPeer n side peer e.traverse

-- A round sends to the last address, a ping or a pong by the state, and changes nothing else.
pub record Sends (e f : End) (x : Sent) : Type 0 where
  pub reads : f.phase ≡ e.phase
  pub same : f.traverse ≡ e.traverse
  pub member : Memᴰ x f.sent

pub ping_round :
    (e : End) (left : ℕ) (addr : Bytes)
    → e.traverse.last_addr ≡ some addr
    → e.traverse.state ≡ 1
    → Sends e (send_round e left) (ping addr)
unfolding send_round ping_pong_round
ping_round e left addr last one =
    subst (λ f. Sends e f (ping addr)) (sym (ap (round_to e left) last))
      (rw ((==_iff e.traverse.state 1).1 one)
        (record { reads = refl; same = refl; member = first e.traverse.last_addr2 }))
  where
    first : (o : Option Bytes) → Memᴰ (ping addr) (to_both addr o ++ e.sent)
    first none = Memᴰ.head refl
    first (some b) = Memᴰ.head refl

pub pong_round :
    (e : End) (left : ℕ) (addr : Bytes)
    → e.traverse.last_addr ≡ some addr
    → e.traverse.state ≡ 2
    → Sends e (send_round e left) (pong addr)
unfolding send_round ping_pong_round
pong_round e left addr last two =
    let other : (e.traverse.state == 1) ≡ false = ground arith in
    subst (λ f. Sends e f (pong addr)) (sym (ap (round_to e left) last))
      (rw (other, (==_iff e.traverse.state 2).1 two)
        (record { reads = refl; same = refl; member = Memᴰ.head refl }))

started : (t : Traverse) → (t.state ≡ 1) ⊎ (t.state ≡ 2) → (t.state == 0) ≡ false
started t (inl a) = ground arith
started t (inr a) = ground arith

module _ (resolve : Bytes → Option Bytes) where
  -- A ping turns its reader to pongs, to where it came from.
  pub record Turns (e f : End) (from : Bytes) : Type 0 where
    pub reads : f.phase ≡ e.phase
    pub two : f.traverse.state ≡ 2
    pub last : f.traverse.last_addr ≡ some from
    pub rounds : f.rounds ≡ e.rounds

  pub hear_ping :
      (e : End) (from : Bytes)
      → (e.traverse.state ≡ 1) ⊎ (e.traverse.state ≡ 2)
      → Turns e (hear resolve e (from_peer (text "ping")) from) from
  unfolding hear take_message take_from_peer bytes_equal
  hear_ping e from b =
      rw (started e.traverse b)
        (record { reads = refl; two = refl; last = refl; rounds = omega arith })

  -- A pong connects its reader, who sends one back.
  pub record Connects (f : End) (from : Bytes) : Type 0 where
    pub is_met : f.phase ≡ met
    pub back : Memᴰ (pong from) f.sent

  pub hear_pong :
      (e : End) (from : Bytes)
      → (e.traverse.state ≡ 1) ⊎ (e.traverse.state ≡ 2)
      → Connects (hear resolve e (from_peer (text "pong")) from) from
  unfolding hear take_message take_from_peer bytes_equal
  hear_pong e from b = rw (started e.traverse b) (record { is_met = refl; back = Memᴰ.head refl })
