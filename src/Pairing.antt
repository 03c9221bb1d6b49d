-- ===== src/Pairing.antt =====
-- The configurations that a daemon and a client make of one exchange (internal/pipie/daemon.go and
-- internal/pipie/client.go), and the pair connections that they make of these.
pub mod Authenticates
mod Examples
use pipie.Prelude.{
  ◌≡◌, ◌≢◌, refl, sym, ap, ◌∙◌, ◌⊎◌, inl, inr, Bool, true, false, not, Option, none, some, Bytes,
  text, arith, Outcome, ok, err, panic, if◌then◌else◌, Bool-cases, Option-cases,
}
use pipie.Platform.{Platform, Url}
use pipie.Keys.{generate_pair_conn_key}
use pipie.Pair.Builder.{
  BuildConnectionConfig, PairConnectionConfig, new_pair_conn_config_builder, set_pair_id_and_key,
  set_rendezvous_server, set_tls, set_relay_perm, set_relay_temp, set_force_relay, build,
}
use pipie.Pair.Connect.{Answers, Secured, connect_to}
use pipie.Pair.Roles.{Opposed, connect_to-opposite_roles}
use pipie.Daemon.State.{Daemon, Entropy}
use pipie.Daemon.Confirm.{service_config}
use pipie.Client.Exchanges.{Client, client_config}

-- What the two ends have to have in common, and what tells them apart.
pub record Agree (ours theirs : PairConnectionConfig) : Type 0 where
  pub pair_id : theirs.conn_builder.pair_id ≡ ours.conn_builder.pair_id
  pub key : theirs.conn_builder.key ≡ ours.conn_builder.key
  pub server_address : theirs.conn_builder.server_address ≡ ours.conn_builder.server_address
  pub relay_pool : theirs.conn_builder.relay_pool ≡ ours.conn_builder.relay_pool
  pub udp_connection : theirs.conn_builder.udp_connection ≡ ours.conn_builder.udp_connection
  pub permanent : ours.polarity ≡ true
  pub temporary : theirs.polarity ≡ false

module _ (p : Platform) (rand : Entropy) (d : Daemon) (c : Client) (pair_id pair_key peer : Bytes)
    (relay : Url) (ours theirs : PairConnectionConfig) where
  -- A daemon and a client with the same access key, that go by the same pair id, pair key and relay,
  -- build configurations with the same pair id, key, rendezvous server and relay, and the daemon's
  -- is the permanent side of the relay, the client's the temporary one.
  pub configs-Agree :
      c.access_key ≡ d.access_key
      → service_config p rand d pair_id pair_key relay ≡ ok ours
      → build (client_config p rand c pair_id pair_key relay peer) ≡ ok theirs
      → Agree ours theirs
  unfolding service_config client_config build set_pair_id_and_key set_rendezvous_server set_tls
      set_relay_perm set_relay_temp set_force_relay new_pair_conn_config_builder
  configs-Agree same e f = elim (Option-cases d.cert) [
    | inl x ↦ absurd (ground arith)
    | inr (cert, x) ↦ elim (Option-cases c.cert) [
      | inl y ↦ absurd (ground arith)
      | inr (cert', y) ↦ elim (Bool-cases d.force_relay) [
        | inl u ↦ elim (Bool-cases c.force_relay) [ inl v ↦ ground arith | inr v ↦ ground arith ]
        | inr u ↦ elim (Bool-cases c.force_relay) [ inl v ↦ ground arith | inr v ↦ ground arith ]
      ]
    ]
  ]

  -- A daemon and a client with the same access key, that go by the same pair id, pair key and relay
  -- and both connect, both over a relay or with opposite polarities of the rendezvous server: one of
  -- them is the TLS server and the other the TLS client.
  pub configs-opposite_roles :
      (a a' : Answers) (s s' : Secured)
      → c.access_key ≡ d.access_key
      → service_config p rand d pair_id pair_key relay ≡ ok ours
      → build (client_config p rand c pair_id pair_key relay peer) ≡ ok theirs
      → connect_to ours a ≡ ok s
      → connect_to theirs a' ≡ ok s'
      → Opposed s.carrier.meta s'.carrier.meta
      → s.role ≢ s'.role
  configs-opposite_roles a a' s s' same e f q q' o =
      let agree = configs-Agree same e f in
      connect_to-opposite_roles ours theirs a a' s s' q q'
        (agree.temporary ∙ ap not (sym agree.permanent)) o
