-- ===== src/Pairing/Authenticates.antt =====
-- The identity checks of a daemon and a client over the pair connection of one exchange
-- (internal/pipie/daemon.go, internal/pipie/client.go, lib/pairconnect/pair_conn.go).
use pipie.Prelude.{
  ℕ, ◌≡◌, ◌↔◌, sym, ap, ◌∙◌, inl, inr, none, ◌++◌, length, Bytes, arith, ok, Bool-cases,
  Option-cases,
}
use pipie.Platform.{Platform, Url}
use pipie.Keys.{generate_pair_conn_key}
use pipie.Pair.Builder.{
  PairConnectionConfig, new_pair_conn_config_builder, set_pair_id_and_key, set_rendezvous_server,
  set_tls, set_relay_perm, set_relay_temp, set_force_relay, build,
}
use pipie.Pair.Identity.{Reply, tls_identity_check, identity_sent}
use pipie.Pair.IdentityStream.{Streams, tls_identity_check-same_key}
use pipie.Daemon.State.{Daemon, Entropy}
use pipie.Daemon.Confirm.{service_config}
use pipie.Client.Exchanges.{Client, client_config}

service_config-key :
    (p : Platform) (rand : Entropy) (d : Daemon) (pair_id pair_key : Bytes) (relay : Url)
    (ours : PairConnectionConfig)
    → service_config p rand d pair_id pair_key relay ≡ ok ours
    → ours.conn_builder.key ≡ generate_pair_conn_key p pair_key d.access_key
unfolding service_config build set_pair_id_and_key set_rendezvous_server set_tls set_relay_perm
    set_force_relay new_pair_conn_config_builder
service_config-key p rand d pair_id pair_key relay ours e = elim (Option-cases d.cert) [
  | inl x ↦ absurd (ground arith)
  | inr (cert, x) ↦ elim (Bool-cases d.force_relay) [ inl u ↦ ground arith | inr u ↦ ground arith ]
]

client_config-key :
    (p : Platform) (rand : Entropy) (c : Client) (pair_id pair_key peer : Bytes) (relay : Url)
    (theirs : PairConnectionConfig)
    → build (client_config p rand c pair_id pair_key relay peer) ≡ ok theirs
    → theirs.conn_builder.key ≡ generate_pair_conn_key p pair_key c.access_key
unfolding client_config build set_pair_id_and_key set_rendezvous_server set_tls set_relay_temp
    set_force_relay new_pair_conn_config_builder
client_config-key p rand c pair_id pair_key peer relay theirs e = elim (Option-cases c.cert) [
  | inl x ↦ absurd (ground arith)
  | inr (cert, x) ↦ elim (Bool-cases c.force_relay) [ inl u ↦ ground arith | inr u ↦ ground arith ]
]

module _ (p : Platform) (rand : Entropy) (d : Daemon) (c : Client) (pair_id pair_key peer : Bytes)
    (relay : Url) (ours theirs : PairConnectionConfig) {C : Type 0} (read : C → ℕ → Reply × C)
    (stream : C → Bytes) (law : Streams read stream) (our_cert their_cert : Bytes) where
  -- The hashes of what the two ends send and expect tell their keys apart, and the derivation tells
  -- their access keys apart.
  pub record TellsApart : Type 0 where
    pub sums : (b : Bytes) → length (p.sha512 b) ≡ 64
    pub by_their_cert :
        p.sha512 (their_cert ++ theirs.conn_builder.key)
          ≡ p.sha512 (their_cert ++ ours.conn_builder.key)
        → theirs.conn_builder.key ≡ ours.conn_builder.key
    pub by_our_cert :
        p.sha512 (our_cert ++ ours.conn_builder.key)
          ≡ p.sha512 (our_cert ++ theirs.conn_builder.key)
        → ours.conn_builder.key ≡ theirs.conn_builder.key
    pub derived :
        generate_pair_conn_key p pair_key c.access_key
          ≡ generate_pair_conn_key p pair_key d.access_key
        → c.access_key ≡ d.access_key

  -- A daemon and a client that go by the same pair key, each with its own access key, and over whose
  -- connection each sends its part of the identity check: where the hashes tell apart what differs,
  -- the daemon's check passes exactly if the two access keys are the same, and so does the client's,
  -- however the connection cuts what is sent into reads.
  pub configs-authenticate :
      (at_ours at_theirs : C) (rest rest' : Bytes)
      → service_config p rand d pair_id pair_key relay ≡ ok ours
      → build (client_config p rand c pair_id pair_key relay peer) ≡ ok theirs
      → TellsApart
      → stream at_ours ≡ identity_sent p their_cert theirs.conn_builder.key ++ rest
      → stream at_theirs ≡ identity_sent p our_cert ours.conn_builder.key ++ rest'
      → ((tls_identity_check read p their_cert ours.conn_builder.key none at_ours ≡ ok tt)
          ↔ (c.access_key ≡ d.access_key))
        × ((tls_identity_check read p our_cert theirs.conn_builder.key none at_theirs ≡ ok tt)
            ↔ (c.access_key ≡ d.access_key))
  configs-authenticate at_ours at_theirs rest rest' e f apart s s' =
      let our_key = service_config-key p rand d pair_id pair_key relay ours e in
      let their_key = client_config-key p rand c pair_id pair_key peer relay theirs f in
      let same : c.access_key ≡ d.access_key → theirs.conn_builder.key ≡ ours.conn_builder.key =
        λ q. their_key ∙ ap (generate_pair_conn_key p pair_key) q ∙ sym our_key in
      let access : theirs.conn_builder.key ≡ ours.conn_builder.key → c.access_key ≡ d.access_key =
        λ q. apart.derived (sym their_key ∙ q ∙ our_key) in
      let ours_passes =
        tls_identity_check-same_key read stream law p their_cert theirs.conn_builder.key
          ours.conn_builder.key rest at_ours apart.sums apart.by_their_cert s in
      let theirs_passes =
        tls_identity_check-same_key read stream law p our_cert ours.conn_builder.key
          theirs.conn_builder.key rest' at_theirs apart.sums apart.by_our_cert s' in
      (
        (λ q. access (ours_passes.0 q), λ q. ours_passes.1 (same q)),
        (λ q. access (sym (theirs_passes.0 q)), λ q. theirs_passes.1 (sym (same q))),
      )
