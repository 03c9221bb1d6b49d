-- ===== src/Pair/Peers/Keeps.antt =====
-- Every step of an end of two peers keeps what holds of it, and takes back nothing that it has sent.
use mathlib.Core.List.{Memᴰ}
use pipie.Prelude.{
  ℕ, ◌+◌, ◌≡◌, inl, inr, ◌==◌, ==_iff, Bool, Option, none, some, List, [], ◌∷◌, ◌++◌, Bytes, text,
  bytes_equal, arith, Bool-cases,
}
use pipie.Pair.Traverse.{
  PairInfos, Message, invalid, false_status, no_infos, from_peer_no_string, from_peer, infos,
  Traverse, Step, goes_on, ponged, returns, panics, take_infos, take_from_peer, take_message, Sent,
  ping, pong, ping_pong_round, to_both,
}
use pipie.Pair.TraverseConnects.{step-cases}
use pipie.Pair.Peers.{
  reading, End, pong_to, after_step, hear, after_round, round_to, send_round, Network, Arrives,
  pings, pongs, issued, Moves, hears, sends, fails,
}
use pipie.Pair.Peers.Sound.{
  Contacted, by_ping, Sound, idle-Sound, gone-Sound, told-Sound, pinged-Sound, ponged-Sound,
}

module _ (n : Network) (side peer : Bool) where
  infos-Told :
      (t t' : Traverse) (i : PairInfos)
      → take_infos n.resolve t i ≡ goes_on t'
      → (t'.state ≡ 1) × (t'.pair_info ≡ some i)
  unfolding take_infos
  infos-Told t t' i e = (ground arith, ground arith)

  infos-not_ponged : (t t' : Traverse) (i : PairInfos) → ¬ (take_infos n.resolve t i ≡ ponged t')
  unfolding take_infos
  infos-not_ponged t t' i e = ground arith

  issued-Sound :
      (sent : List Sent) (e : End) (m : Message) (from : Bytes)
      → n.Issues side m
      → e.phase ≡ reading
      → Sound n side peer sent e
      → Sound n side peer sent (hear n.resolve e m from)
  unfolding hear take_message
  issued-Sound sent e invalid from o free s = gone-Sound n side peer sent e s
  issued-Sound sent e false_status from o free s = gone-Sound n side peer sent e s
  issued-Sound sent e no_infos from o free s = gone-Sound n side peer sent e s
  issued-Sound sent e from_peer_no_string from o free s =
      elim (Bool-cases (e.traverse.state == 0)) [
        | inl z ↦ rw z (idle-Sound n side peer sent e (e.rounds + 0) e.heard s)
        | inr z ↦ rw z (gone-Sound n side peer sent e s)
      ]
  issued-Sound sent e (from_peer word) from o free s = absurd (n.no_word side word o)
  issued-Sound sent e (infos i) from o free s =
      elim (step-cases n.resolve [] (take_infos n.resolve e.traverse i)) [
        | inl (t', q) ↦
            let (one, told) = infos-Told e.traverse t' i q in
            rw q (
              told-Sound n side peer sent e t' (e.rounds + 8) e.heard s free one
                (record { told = i; is_told = told; was_issued = o }))
        | inr (inl (t', q)) ↦ absurd (infos-not_ponged e.traverse t' i q)
        | inr (inr (inl (x, q))) ↦ rw q (gone-Sound n side peer sent e s)
        | inr (inr (inr (x, q))) ↦ rw q (gone-Sound n side peer sent e s)
      ]

  pinged-hear :
      (sent : List Sent) (e : End) (to from : Bytes)
      → Memᴰ (ping to) sent
      → n.Owns side to
      → n.Owns peer from
      → e.phase ≡ reading
      → Sound n side peer sent e
      → Sound n side peer sent (hear n.resolve e (from_peer (text "ping")) from)
  unfolding hear take_message take_from_peer bytes_equal
  pinged-hear sent e to from m own o free s = elim (Bool-cases (e.traverse.state == 0)) [
    | inl z ↦ rw z (idle-Sound n side peer sent e (e.rounds + 0) (text "ping" ∷ e.heard) s)
    | inr z ↦ rw z (
        pinged-Sound n side peer sent e (e.rounds + 0) (text "ping" ∷ e.heard) from s free
          (λ q. absurd (ground (arith, ==_iff e.traverse.state 0))) (by_ping to own m) o)
  ]

  ponged-hear :
      (sent : List Sent) (e : End) (to from : Bytes)
      → Memᴰ (pong to) sent
      → n.Owns side to
      → n.Owns peer from
      → e.phase ≡ reading
      → Sound n side peer sent e
      → Sound n side peer sent (hear n.resolve e (from_peer (text "pong")) from)
  unfolding hear take_message take_from_peer bytes_equal
  ponged-hear sent e to from m own o free s = elim (Bool-cases (e.traverse.state == 0)) [
    | inl z ↦ rw z (idle-Sound n side peer sent e (e.rounds + 0) (text "pong" ∷ e.heard) s)
    | inr z ↦ rw z (
        ponged-Sound n side peer sent e (text "pong" ∷ e.heard) to from s
          (λ q. absurd (ground (arith, ==_iff e.traverse.state 0))) m own o)
  ]

  Arrives-Sound :
      (sent : List Sent) (e : End) (m : Message) (from : Bytes)
      → Arrives n side peer sent m from
      → e.phase ≡ reading
      → Sound n side peer sent e
      → Sound n side peer sent (hear n.resolve e m from)
  Arrives-Sound sent e _ _ (pings to from m own o) free s =
      pinged-hear sent e to from m own o free s
  Arrives-Sound sent e _ _ (pongs to from m own o) free s =
      ponged-hear sent e to from m own o free s
  Arrives-Sound sent e _ _ (issued m from o) free s = issued-Sound sent e m from o free s

  -- What is added to the sent by a round.
  added-Sound :
      (sent : List Sent) (e : End) (left : ℕ) (more : List Sent)
      → e.phase ≡ reading
      → ¬ (e.traverse.state ≡ 0)
      → ((to : Bytes) → Memᴰ (pong to) (more ++ e.sent) → Contacted n side peer sent)
      → Sound n side peer sent e
      → Sound n side peer sent (record e { rounds = left; sent = more ++ e.sent })
  added-Sound sent e left more free started back s = record {
    known = elim s.known [ inl z ↦ absurd (started z.0) | inr k ↦ inr k ];
    answers = s.answers;
    pongs_back = back;
    when_met = λ z. absurd (cc);
  }

  -- Only pings.
  pinging-Sound :
      (sent : List Sent) (e : End) (left : ℕ) (addr : Bytes) (addr2 : Option Bytes)
      → e.phase ≡ reading
      → e.traverse.state ≡ 1
      → Sound n side peer sent e
      → Sound n side peer sent (record e { rounds = left; sent = to_both addr addr2 ++ e.sent })
  pinging-Sound sent e left addr addr2 free one s =
      added-Sound sent e left (to_both addr addr2) free (λ z. absurd (omega (arith, one, z)))
        (λ to m. s.pongs_back to (earlier addr2 m)) s
    where
      earlier :
          {to : Bytes} (o : Option Bytes)
          → Memᴰ (pong to) (to_both addr o ++ e.sent)
          → Memᴰ (pong to) e.sent
      earlier none (Memᴰ.head q) = absurd (cc)
      earlier none (Memᴰ.tail m) = m
      earlier (some b) (Memᴰ.head q) = absurd (cc)
      earlier (some b) (Memᴰ.tail (Memᴰ.head q)) = absurd (cc)
      earlier (some b) (Memᴰ.tail (Memᴰ.tail m)) = m

  ponging-Sound :
      (sent : List Sent) (e : End) (left : ℕ) (addr : Bytes)
      → e.phase ≡ reading
      → e.traverse.state ≡ 2
      → Sound n side peer sent e
      → Sound n side peer sent (record e { rounds = left; sent = pong addr ∷ e.sent })
  ponging-Sound sent e left addr free two s =
      added-Sound sent e left (pong addr ∷ []) free (λ z. absurd (omega (arith, two, z)))
        (λ to m. (s.answers two).0) s

  round_to-Sound :
      (sent : List Sent) (e : End) (left : ℕ) (o : Option Bytes)
      → e.phase ≡ reading
      → Sound n side peer sent e
      → Sound n side peer sent (round_to e left o)
  unfolding ping_pong_round
  round_to-Sound sent e left none free s = idle-Sound n side peer sent e left e.heard s
  round_to-Sound sent e left (some addr) free s = elim (Bool-cases (e.traverse.state == 1)) [
    | inl one ↦ rw one (
        pinging-Sound sent e left addr e.traverse.last_addr2 free
          ((==_iff e.traverse.state 1).0 one) s)
    | inr other ↦ elim (Bool-cases (e.traverse.state == 2)) [
      | inl two ↦
          rw (other, two)
            (ponging-Sound sent e left addr free ((==_iff e.traverse.state 2).0 two) s)
      | inr none_of_them ↦ rw (other, none_of_them) (idle-Sound n side peer sent e left e.heard s)
    ]
  ]

  pub Moves-Sound :
      {sent : List Sent} {e f : End}
      → Moves n side peer sent e f
      → Sound n side peer sent e
      → Sound n side peer sent f
  unfolding send_round
  Moves-Sound {sent} (hears e m from free a) s = Arrives-Sound sent e m from a free s
  Moves-Sound {sent} (sends e left free more) s =
      round_to-Sound sent e left e.traverse.last_addr free s
  Moves-Sound {sent} (fails e free) s = gone-Sound n side peer sent e s

  later : (xs : List Sent) {x : Sent} {ys : List Sent} → Memᴰ x ys → Memᴰ x (xs ++ ys)
  later [] m = m
  later (y ∷ xs) m = Memᴰ.tail (later xs m)

  after_step-grows :
      (e : End) (m : Message) (t : Step) (x : Sent) → Memᴰ x e.sent → Memᴰ x (after_step e m t).sent
  after_step-grows e m (goes_on t) x h = h
  after_step-grows e m (ponged t) x h = later (pong_to t.last_addr) h
  after_step-grows e m (returns y) x h = h
  after_step-grows e m (panics y) x h = h

  after_round-grows :
      (e : End) (left : ℕ) (o : Option (List Sent)) (x : Sent)
      → Memᴰ x e.sent
      → Memᴰ x (after_round e left o).sent
  after_round-grows e left none x h = h
  after_round-grows e left (some sent) x h = later sent h

  round_to-grows :
      (e : End) (left : ℕ) (o : Option Bytes) (x : Sent)
      → Memᴰ x e.sent
      → Memᴰ x (round_to e left o).sent
  round_to-grows e left none x h = h
  round_to-grows e left (some addr) x h = after_round-grows e left _ x h

  pub Moves-grows :
      {sent : List Sent} {e f : End} (x : Sent)
      → Moves n side peer sent e f
      → Memᴰ x e.sent
      → Memᴰ x f.sent
  unfolding hear send_round
  Moves-grows x (hears e m from free a) h = after_step-grows e m _ x h
  Moves-grows x (sends e left free more) h = round_to-grows e left e.traverse.last_addr x h
  Moves-grows x (fails e free) h = h
