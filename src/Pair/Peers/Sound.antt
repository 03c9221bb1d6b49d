-- ===== src/Pair/Peers/Sound.antt =====
-- What holds of an end of two peers, given what the other has sent.
use mathlib.Core.List.{Memᴰ}
use mathlib.Core.List.Memᴰ.{not-nil}
use pipie.Prelude.{ℕ, ◌≡◌, refl, ◌⊎◌, inl, inr, Bool, some, List, [], ◌∷◌, Bytes, arith}
use pipie.Pair.Traverse.{PairInfos, infos, Traverse, Sent, ping, pong}
use pipie.Pair.Peers.{reading, met, gone, End, new_end, Network}

module _ (n : Network) (side peer : Bool) where
  -- The peer has sent a ping or a pong to an address of this end.
  pub data Contacted (sent : List Sent) : Type 0 where
    by_ping : (to : Bytes) → n.Owns side to → Memᴰ (ping to) sent → Contacted sent
    by_pong : (to : Bytes) → n.Owns side to → Memᴰ (pong to) sent → Contacted sent

  -- The pairInfo is one of the server's.
  pub record IsTold (t : Traverse) : Type 0 where
    pub told : PairInfos
    pub is_told : t.pair_info ≡ some told
    pub was_issued : n.Issues side (infos told)

  -- The last address is the peer's.
  pub record HasPeer (t : Traverse) : Type 0 where
    pub addr : Bytes
    pub last : t.last_addr ≡ some addr
    pub owned : n.Owns peer addr

  pub record Answered (sent : List Sent) (e : End) : Type 0 where
    pub to_peer : HasPeer e.traverse
    pub to : Bytes
    pub owned : n.Owns side to
    pub answer : Memᴰ (pong to) sent

  -- An end that has sent anything was told of its peer; one that has sent a pong, or is about to, was
  -- contacted; and one that has met its peer was answered.
  pub record Sound (sent : List Sent) (e : End) : Type 0 where
    pub known : ((e.traverse.state ≡ 0) × (e.sent ≡ [])) ⊎ IsTold e.traverse
    pub answers : e.traverse.state ≡ 2 → Contacted sent × HasPeer e.traverse
    pub pongs_back : (to : Bytes) → Memᴰ (pong to) e.sent → Contacted sent
    pub when_met : e.phase ≡ met → Answered sent e

  abbrev Grows : List Sent → List Sent → Type 0
  Grows sent more = (x : Sent) → Memᴰ x sent → Memᴰ x more

  Contacted-Grows : {sent more : List Sent} → Grows sent more → Contacted sent → Contacted more
  Contacted-Grows g (by_ping to o m) = by_ping to o (g _ m)
  Contacted-Grows g (by_pong to o m) = by_pong to o (g _ m)

  pub Sound-Grows :
      {sent more : List Sent} (e : End) → Grows sent more → Sound sent e → Sound more e
  Sound-Grows e g s = record {
    known = s.known;
    answers = λ z. (Contacted-Grows g (s.answers z).0, (s.answers z).1);
    pongs_back = λ to m. Contacted-Grows g (s.pongs_back to m);
    when_met = λ z.
        let a = s.when_met z in
        record { to_peer = a.to_peer; to = a.to; owned = a.owned; answer = g _ a.answer };
  }

  pub new_end-Sound : (sent : List Sent) → Sound sent new_end
  new_end-Sound sent = record {
    known = inl (refl, refl);
    answers = λ z. absurd (omega (arith, z));
    pongs_back = λ to m. absurd (not-nil m);
    when_met = λ z. absurd (cc);
  }

  pub gone-Sound :
      (sent : List Sent) (e : End) → Sound sent e → Sound sent (record e { phase = gone })
  gone-Sound sent e s = record {
    known = s.known;
    answers = s.answers;
    pongs_back = s.pongs_back;
    when_met = λ z. absurd (cc);
  }

  -- A word that counts for nothing was read.
  pub idle-Sound :
      (sent : List Sent) (e : End) (rounds : ℕ) (heard : List Bytes)
      → Sound sent e
      → Sound sent (record e { rounds = rounds; heard = heard })
  idle-Sound sent e rounds heard s = record {
    known = s.known;
    answers = s.answers;
    pongs_back = s.pongs_back;
    when_met = λ z.
        let a = s.when_met z in
        record { to_peer = a.to_peer; to = a.to; owned = a.owned; answer = a.answer };
  }

  -- A pairInfo was taken.
  pub told-Sound :
      (sent : List Sent) (e : End) (t : Traverse) (rounds : ℕ) (heard : List Bytes)
      → Sound sent e
      → e.phase ≡ reading
      → t.state ≡ 1
      → IsTold t
      → Sound sent (record e { traverse = t; rounds = rounds; heard = heard })
  told-Sound sent e t rounds heard s free one told = record {
    known = inr told;
    answers = λ z. absurd (omega (arith, one, z));
    pongs_back = s.pongs_back;
    when_met = λ z. absurd (cc);
  }

  -- A word of the peer was read.
  pub pinged-Sound :
      (sent : List Sent) (e : End) (rounds : ℕ) (heard : List Bytes) (from : Bytes)
      → Sound sent e
      → e.phase ≡ reading
      → ¬ (e.traverse.state ≡ 0)
      → Contacted sent
      → n.Owns peer from
      → Sound sent (record e {
        traverse = record e.traverse { state = 2; last_addr = some from };
        rounds = rounds;
        heard = heard;
      })
  pinged-Sound sent e rounds heard from s free started c o = record {
    known = elim s.known [
      | inl z ↦ absurd (started z.0)
      | inr k ↦ inr (record { told = k.told; is_told = k.is_told; was_issued = k.was_issued })
    ];
    answers = λ z. (c, record { addr = from; last = refl; owned = o });
    pongs_back = s.pongs_back;
    when_met = λ z. absurd (cc);
  }

  pub ponged-Sound :
      (sent : List Sent) (e : End) (heard : List Bytes) (to from : Bytes)
      → Sound sent e
      → ¬ (e.traverse.state ≡ 0)
      → Memᴰ (pong to) sent
      → n.Owns side to
      → n.Owns peer from
      → Sound sent (record e {
        phase = met;
        traverse = record e.traverse { state = 3; last_addr = some from };
        sent = pong from ∷ e.sent;
        heard = heard;
      })
  ponged-Sound sent e heard to from s started m own o = record {
    known = elim s.known [
      | inl z ↦ absurd (started z.0)
      | inr k ↦ inr (record { told = k.told; is_told = k.is_told; was_issued = k.was_issued })
    ];
    answers = λ z. absurd (omega (arith, z));
    pongs_back = λ x y. by_pong to own m;
    when_met = λ z. record {
      to_peer = record { addr = from; last = refl; owned = o };
      to = to;
      owned = own;
      answer = m;
    };
  }
