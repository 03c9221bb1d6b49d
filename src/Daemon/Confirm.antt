-- ===== src/Daemon/Confirm.antt =====
-- The replies of a daemon: daemonChallengeConfirm and the two confirmations that its handlers send
-- (internal/pipie/daemon.go).
use pipie.Prelude.{
  true, false, none, some, Bytes, text, Action, Outcome, lift, ◌>>=◌, ◌>>◌, if◌then◌else◌,
}
use pipie.Platform.{Platform, Url}
use pipie.Exchange.{ConfirmPayload, confirm}
use pipie.Transfer.{construct_transfer_packer}
use pipie.Keys.{
  payload_nonce_size, generate_encryption_nonce, construct_encrypted_payload,
  generate_pair_conn_key,
}
use pipie.Pair.Builder.{
  PairConnectionConfig, new_pair_conn_config_builder, set_pair_id_and_key, set_rendezvous_server,
  set_tls, set_relay_perm, set_force_relay, build,
}
use pipie.Daemon.State.{Daemon, World, Entropy, get_random_bytes, write_frame}

-- The confirmation of an exchange that fails the permission check.
abbrev pub refusal : ConfirmPayload
refusal = record {
  result = some false;
  message = some (text "failed permission check");
  signature = none;
  relay = none;
  pair_id = none;
}

abbrev pub acceptance : Daemon → Url → Bytes → ConfirmPayload
acceptance d relay pair_id = record {
  result = some true;
  message = none;
  signature = some d.cert_hash;
  relay = some relay.string;
  pair_id = some pair_id;
}

module _ (p : Platform) (rand : Entropy) (d : Daemon) where
  unfoldable pub daemon_challenge_confirm : Bytes → Bytes → ConfirmPayload → Action World (Unit {0})
  unfolding get_random_bytes write_frame
  daemon_challenge_confirm token dest payload = do
    nonce ← get_random_bytes rand payload_nonce_size
    encrypted ← lift (
        construct_encrypted_payload p (generate_encryption_nonce p token nonce)
          d.signal_encryption_hash (p.marshal_confirm payload))
    send_payload ←
        lift (p.marshal_exchange (record { exchange_body = some (confirm token nonce encrypted) }))
    write_frame (construct_transfer_packer d.transfer_code dest send_payload)

  -- The pair connection of an exchange that passed the check.
  unfoldable pub service_config : Bytes → Bytes → Url → Outcome PairConnectionConfig
  unfolding set_pair_id_and_key set_rendezvous_server set_tls set_relay_perm set_force_relay build
  service_config pair_id pair_key relay =
      let a =
        set_pair_id_and_key new_pair_conn_config_builder pair_id
          (generate_pair_conn_key p pair_key d.access_key) in
      let b = set_rendezvous_server a (text "pipie.mingc.net:7890") in
      let c = set_tls b d.cert in
      let e = if d.force_relay then set_force_relay c else c in
      build (set_relay_perm e (some relay))

  unfoldable pub accept : Bytes → Bytes → Bytes → Bytes → Url → Action World PairConnectionConfig
  unfolding daemon_challenge_confirm service_config
  accept token source pair_id pair_key relay = do
    daemon_challenge_confirm token source (acceptance d relay pair_id)
    lift (service_config pair_id pair_key relay)
