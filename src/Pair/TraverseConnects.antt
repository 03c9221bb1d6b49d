-- ===== src/Pair/TraverseConnects.antt =====
-- What a traversal that succeeds has heard.
use mathlib.Core.List.{Memᴰ}
use mathlib.Core.Path.{subst}
use pipie.Prelude.{
  none, ℕ, ◌≡◌, ◌≢◌, refl, ◌⊎◌, inl, inr, true, not, Option, some, List, [], ◌∷◌, Bytes, text,
  bytes_equal_iff, arith, ok, ◌∙◌,
}
use pipie.Pair.Traverse.{
  PairInfos, Message, invalid, false_status, no_infos, from_peer_no_string, from_peer, infos, Read,
  datagram, read_failed, Traverse, new_traverse, Connected, Step, goes_on, ponged, returns, panics,
  take_infos, take_from_peer, take_message, finish, traverse_loop, delay_send,
}

-- The pairInfo of the state is one that was read, with a true status.
pub record Told (all : List Read) (t : Traverse) : Type 0 where
  pub told : PairInfos
  pub from : Bytes
  pub is_told : t.pair_info ≡ some told
  pub status : told.status ≡ true
  pub arrived : Memᴰ (datagram (infos told) from) all

abbrev Known : List Read → Traverse → Type 0
Known all t = (t.state ≡ 0) ⊎ Told all t

-- A state that a pong has ended: its address is the pong's sender, its pairInfo was read.
pub record Ponged (all : List Read) (t : Traverse) : Type 0 where
  pub told : PairInfos
  pub from : Bytes
  pub peer : Bytes
  pub status : told.status ≡ true
  pub arrived : Memᴰ (datagram (infos told) from) all
  pub pong : Memᴰ (datagram (from_peer (text "pong")) peer) all
  pub to_peer : t.last_addr ≡ some peer
  pub is_told : t.pair_info ≡ some told

-- A connection to the sender of a pong that was read, with the polarity of a pairInfo that was.
pub record Heard (all : List Read) (c : Connected) : Type 0 where
  pub told : PairInfos
  pub from : Bytes
  pub peer : Bytes
  pub status : told.status ≡ true
  pub arrived : Memᴰ (datagram (infos told) from) all
  pub pong : Memᴰ (datagram (from_peer (text "pong")) peer) all
  pub to_peer : c.addr ≡ some peer
  pub has_polarity : c.meta ≡ told.pair_info.polarity

module _ (resolve : Bytes → Option Bytes) (all : List Read) where
  infos-Told :
      (t t' : Traverse) (i : PairInfos) (addr : Bytes)
      → Memᴰ (datagram (infos i) addr) all
      → take_infos resolve t i ≡ goes_on t'
      → Told all t'
  unfolding take_infos
  infos-Told t t' i addr m e = record {
    told = i;
    from = addr;
    is_told = ground arith;
    status = ground arith;
    arrived = m;
  }

  infos-no_pong :
      {P : Type 0} (t t' : Traverse) (i : PairInfos) → take_infos resolve t i ≡ ponged t' → P
  unfolding take_infos
  infos-no_pong t t' i e = absurd (ground arith)

  from_peer-Known :
      (t t' : Traverse) (word addr : Bytes)
      → Known all t
      → take_from_peer resolve t word addr ≡ goes_on t'
      → Known all t'
  unfolding take_from_peer
  from_peer-Known t t' word addr (inl z) e = inl (ground arith)
  from_peer-Known t t' word addr (inr k) e = inr (record {
    told = k.told;
    from = k.from;
    is_told = ground (arith, k.is_told);
    status = k.status;
    arrived = k.arrived;
  })

  from_peer-pong :
      (t t' : Traverse) (word addr : Bytes)
      → Known all t
      → take_from_peer resolve t word addr ≡ ponged t'
      → (word ≡ text "pong")
        × (t'.last_addr ≡ some addr)
        × (t'.pair_info ≡ t.pair_info)
        × Told all t
  unfolding take_from_peer
  from_peer-pong t t' word addr (inl z) e = absurd (ground arith)
  from_peer-pong t t' word addr (inr k) e =
      (ground (arith, bytes_equal_iff word (text "pong")), ground arith, ground arith, k)

  message-Known :
      (t t' : Traverse) (m : Message) (addr : Bytes)
      → Memᴰ (datagram m addr) all
      → Known all t
      → take_message resolve t m addr ≡ goes_on t'
      → Known all t'
  unfolding take_message
  message-Known t t' invalid addr a k e = absurd (cc)
  message-Known t t' false_status addr a k e = absurd (cc)
  message-Known t t' no_infos addr a k e = absurd (cc)
  message-Known t t' from_peer_no_string addr a (inl z) e = inl (ground arith)
  message-Known t t' from_peer_no_string addr a (inr k) e = inl (ground arith)
  message-Known t t' (from_peer word) addr a k e = from_peer-Known t t' word addr k e
  message-Known t t' (infos i) addr a k e = inr (infos-Told t t' i addr a e)

  from_peer-Ponged :
      (t t' : Traverse) (word peer : Bytes)
      → Memᴰ (datagram (from_peer word) peer) all
      → Known all t
      → take_from_peer resolve t word peer ≡ ponged t'
      → Ponged all t'
  from_peer-Ponged t t' word peer a k e =
      let (is_pong, last, same, told) = from_peer-pong t t' word peer k e in
      record {
        told = told.told;
        from = told.from;
        peer = peer;
        status = told.status;
        arrived = told.arrived;
        pong = subst (λ v. Memᴰ (datagram (from_peer v) peer) all) is_pong a;
        to_peer = last;
        is_told = same ∙ told.is_told;
      }

  message-Ponged :
      (t t' : Traverse) (m : Message) (addr : Bytes)
      → Memᴰ (datagram m addr) all
      → Known all t
      → take_message resolve t m addr ≡ ponged t'
      → Ponged all t'
  unfolding take_message
  message-Ponged t t' invalid addr a k e = absurd (cc)
  message-Ponged t t' false_status addr a k e = absurd (cc)
  message-Ponged t t' no_infos addr a k e = absurd (cc)
  message-Ponged t t' from_peer_no_string addr a k e = absurd (ground arith)
  message-Ponged t t' (from_peer word) addr a k e = from_peer-Ponged t t' word addr a k e
  message-Ponged t t' (infos i) addr a k e = infos-no_pong t t' i e

  pub step-cases :
      (s : Step)
      → ((t : Traverse) × (s ≡ goes_on t))
        ⊎ (((t : Traverse) × (s ≡ ponged t))
            ⊎ (((e : Bytes) × (s ≡ returns e)) ⊎ ((e : Bytes) × (s ≡ panics e))))
  step-cases (goes_on t) = inl (t, refl)
  step-cases (ponged t) = inr (inl (t, refl))
  step-cases (returns e) = inr (inr (inl (e, refl)))
  step-cases (panics e) = inr (inr (inr (e, refl)))

  loop-Ponged :
      (reads : List Read) (t end : Traverse)
      → ((r : Read) → Memᴰ r reads → Memᴰ r all)
      → Known all t
      → traverse_loop resolve reads t ≡ some (ok end)
      → Ponged all end
  unfolding traverse_loop
  loop-Ponged [] t end within k e = absurd (cc)
  loop-Ponged (read_failed x ∷ reads) t end within k e = absurd (cc)
  loop-Ponged (datagram m addr ∷ reads) t end within k e =
      let a = within (datagram m addr) (Memᴰ.head refl) in
      elim (step-cases (take_message resolve t m addr)) [
        | inl (t', q) ↦
            loop-Ponged reads t' end (λ r h. within r (Memᴰ.tail h))
              (message-Known t t' m addr a k q) (rw (q, traverse_loop) at e)
        | inr (inl (t', q)) ↦
            let same : t' ≡ end = ground arith in
            subst (Ponged all) same (message-Ponged t t' m addr a k q)
        | inr (inr (inl (x, q))) ↦ absurd (ground arith)
        | inr (inr (inr (x, q))) ↦ absurd (ground arith)
      ]

-- A loop that ends has read, in any order of datagrams, a pairInfo with a true status and a pong of
-- the peer: it ends with the address of the sender of that pong and with that pairInfo.
pub traverse_loop-Ponged :
    (resolve : Bytes → Option Bytes) (reads : List Read) (t : Traverse)
    → traverse_loop resolve reads new_traverse ≡ some (ok t)
    → Ponged reads t
traverse_loop-Ponged resolve reads t e =
    loop-Ponged resolve reads reads new_traverse t (λ r h. h) (inl refl) e

-- So what it leads to is a connection to that sender, with the polarity of that pairInfo.
pub finish-Heard :
    (resolve : Bytes → Option Bytes) (reads : List Read) (t : Traverse)
    → Ponged reads t
    → (c : Connected) × (finish resolve none t ≡ ok c) × (c.addr ≡ t.last_addr) × Heard reads c
unfolding finish
finish-Heard resolve reads t h = (
  record { addr = t.last_addr; meta = h.told.pair_info.polarity },
  rw (h.is_told) refl,
  refl,
  record {
    told = h.told;
    from = h.from;
    peer = h.peer;
    status = h.status;
    arrived = h.arrived;
    pong = h.pong;
    to_peer = h.to_peer;
    has_polarity = refl;
  },
)

-- Of two ends that were given opposite polarities, exactly one delays its pings, in every round.
delay_send-opposite :
    (round : ℕ) (i j : PairInfos)
    → j.pair_info.polarity ≡ not i.pair_info.polarity
    → delay_send round (some i) ≢ delay_send round (some j)
unfolding delay_send
delay_send-opposite round i j opposite e = ground arith
