-- ===== src/Pair/Roles.antt =====
-- The roles of the two ends of a pair connection.
use pipie.Prelude.{
  Bool, true, false, not, ◌≡◌, ◌≢◌, refl, sym, ap, ◌∙◌, ◌⊎◌, inl, inr, Option, none, some, Bytes,
  arith, ok, Outcome-cases, Option-cases, Bool-cases, if◌then◌else◌,
}
use pipie.Pair.Builder.{PairConnectionConfig}
use pipie.Pair.Connect.{
  Udp, udp_failed, udp_connected, Tcp, tcp_failed, tcp_nothing, tcp_connected, Answers, direct,
  relayed_permanent, relayed_temporary, Carrier, Secured, relay, relay_or, direct_or_relay, carrier,
  tls_role, connect_to,
}

-- A direct connection has the polarity that the rendezvous server gave, and was not skipped.
abbrev pub CarrierFits : PairConnectionConfig → Carrier → Type 0
CarrierFits config c =
    ((c.meta ≡ none)
      × (c.transport ≡ (if config.polarity then relayed_permanent else relayed_temporary)))
    ⊎ ((config.conn_builder.force_relay ≡ false)
        × (c.transport ≡ direct)
        × ((m : Bool) × (c.meta ≡ some m)))

udp-cases : (u : Udp) → ((e : Bytes) × (u ≡ udp_failed e)) ⊎ ((m : Bool) × (u ≡ udp_connected m))
udp-cases (udp_failed e) = inl (e, refl)
udp-cases (udp_connected m) = inr (m, refl)

tcp-cases :
    (t : Tcp)
    → ((e : Bytes) × (t ≡ tcp_failed e))
      ⊎ ((t ≡ tcp_nothing) ⊎ ((m : Bool) × (t ≡ tcp_connected m)))
tcp-cases (tcp_failed e) = inl (e, refl)
tcp-cases tcp_nothing = inr (inl refl)
tcp-cases (tcp_connected m) = inr (inr (m, refl))

relay-fits :
    (config : PairConnectionConfig) (a : Answers) (c : Carrier)
    → relay config a ≡ ok c
    → (c.meta ≡ none)
      × (c.transport ≡ (if config.polarity then relayed_permanent else relayed_temporary))
unfolding relay
relay-fits config a c e = ground arith

relay_or-fits :
    (e : Bytes) (config : PairConnectionConfig) (a : Answers) (c : Carrier)
    → relay_or e config a ≡ ok c
    → (c.meta ≡ none)
      × (c.transport ≡ (if config.polarity then relayed_permanent else relayed_temporary))
unfolding relay_or
relay_or-fits e config a c q = ground (arith, relay-fits config a c)

direct_or_relay-fits :
    (config : PairConnectionConfig) (a : Answers) (c : Carrier)
    → config.conn_builder.force_relay ≡ false
    → direct_or_relay config a ≡ ok c
    → CarrierFits config c
unfolding direct_or_relay
direct_or_relay-fits config a c free q = elim (Bool-cases config.conn_builder.udp_connection) [
  | inl u ↦ elim (udp-cases a.udp) [
    | inl (e, x) ↦ inl (relay_or-fits e config a c (ground arith))
    | inr (m, x) ↦ elim (Option-cases a.stabilify) [
      | inl n ↦ inr (free, ground arith, (m, ground arith))
      | inr (e, n) ↦ absurd (ground arith)
    ]
  ]
  | inr u ↦ elim (tcp-cases a.tcp) [
    | inl (e, x) ↦ inl (relay_or-fits e config a c (ground arith))
    | inr (inl x) ↦ inl (relay-fits config a c (ground arith))
    | inr (inr (m, x)) ↦ inr (free, ground arith, (m, ground arith))
  ]
]

carrier-fits :
    (config : PairConnectionConfig) (a : Answers) (c : Carrier)
    → carrier config a ≡ ok c
    → CarrierFits config c
unfolding carrier
carrier-fits config a c q = elim (Bool-cases config.conn_builder.force_relay) [
  | inl f ↦ inl (relay-fits config a c (ground arith))
  | inr f ↦ direct_or_relay-fits config a c f (ground arith)
]

-- What `connectTo` returns without error ran over a relay, with the configuration's polarity, or
-- directly, if the relay was not forced, with a polarity that the rendezvous server gave; its TLS
-- role follows from that polarity, and both the TLS handshake and the identity check succeeded.
connect_to-fits :
    (config : PairConnectionConfig) (a : Answers) (s : Secured)
    → connect_to config a ≡ ok s
    → CarrierFits config s.carrier
      × (s.role ≡ tls_role s.carrier.meta config.polarity)
      × (a.handshake ≡ none)
      × (a.identity ≡ ok tt)
unfolding connect_to
connect_to-fits config a s q = elim (Outcome-cases (carrier config a)) [
  | inl (c, e) ↦ elim (Option-cases a.handshake) [
    | inl h ↦ elim (Outcome-cases a.identity) [
      | inl (t, i) ↦
          let same : s.carrier ≡ c = ground arith in
          (carrier-fits config a s.carrier (e ∙ ap ok (sym same)), ground arith, h, i)
      | inr f ↦ absurd (ground arith)
    ]
    | inr (x, h) ↦ absurd (ground arith)
  ]
  | inr f ↦ absurd (ground arith)
]

-- What the two ends know of their polarities: both fell back on a relay, or the rendezvous server
-- gave them opposite ones.
pub data Opposed : Option Bool → Option Bool → Type 0 where
  both_relayed : Opposed none none
  both_direct : (m : Bool) → Opposed (some m) (some (not m))

tls_role-Opposed : (x y : Option Bool) (b : Bool) → Opposed x y → tls_role x b ≢ tls_role y (not b)
unfolding tls_role
tls_role-Opposed x y true both_relayed e = cc
tls_role-Opposed x y false both_relayed e = cc
tls_role-Opposed x y b (both_direct true) e = cc
tls_role-Opposed x y b (both_direct false) e = cc

-- Of two ends that connected, with opposite configured polarities, and that fell back on a relay
-- both or were given opposite polarities by the rendezvous server, one is the TLS server and the
-- other the TLS client.
pub connect_to-opposite_roles :
    (config config' : PairConnectionConfig) (a a' : Answers) (s s' : Secured)
    → connect_to config a ≡ ok s
    → connect_to config' a' ≡ ok s'
    → config'.polarity ≡ not config.polarity
    → Opposed s.carrier.meta s'.carrier.meta
    → s.role ≢ s'.role
connect_to-opposite_roles config config' a a' s s' q q' opposite o e =
    tls_role-Opposed s.carrier.meta s'.carrier.meta config.polarity o (
      sym (connect_to-fits config a s q).1
      ∙ e
      ∙ (connect_to-fits config' a' s' q').1
      ∙ ap (tls_role s'.carrier.meta) opposite)
