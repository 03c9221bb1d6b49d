-- ===== src/Handshake/Serving.antt =====
-- What a daemon does for a response that it permits: the confirmation, then the session.
use pipie.Prelude.{
  suc, ◌≡◌, refl, true, some, [], ◌∷◌, ◌++◌, Bytes, arith, Outcome, ok, inl, inr, Outcome-cases,
  Bool-cases,
}
use pipie.Platform.{Platform, Url}
use pipie.Transfer.{construct_transfer_packer}
use pipie.Exchange.{ResponsePayload, confirm}
use pipie.Keys.{
  pair_id_length, payload_nonce_size, hex_encode, generate_encryption_nonce,
  generate_signal_encryption_key,
}
use pipie.Pair.Builder.{PairConnectionConfig}
use pipie.Client.Tasks.{
  Task, pipe_client, port_forward_to_client, port_forward_from_client, task_intention,
}
use pipie.CommandLine.Directions.{permits}
use pipie.Daemon.State.{
  Daemon, World, Entropy, Session, pipe_session, forward_from_session, forward_to_session,
}
use pipie.Daemon.Confirm.{acceptance, service_config, accept}
use pipie.Daemon.Serve.{
  uint16, serve_pipe_out, serve_forward_to, serve_forward_from, serve_intention,
}
use pipie.Daemon.Handle.{serve_response, get_relay_server}
use pipie.Handshake.Laws.{PlatformLaws, Steady}
use pipie.Handshake.DaemonSide.{daemon_challenge_confirm-eq}

-- The session that a daemon starts for a task.
abbrev pub daemon_session : Task → PairConnectionConfig → Session
daemon_session pipe_client config = pipe_session config
daemon_session (port_forward_to_client bind_host bind_port dest_host dest_port) config =
    forward_from_session config dest_host (uint16 dest_port)
daemon_session (port_forward_from_client bind_host bind_port dest_host dest_port) config =
    forward_to_session config bind_host (uint16 bind_port)

module _ (p : Platform) (laws : PlatformLaws p) (rand : Entropy) (steady : Steady rand)
    (run_pipe : PairConnectionConfig → Outcome (Unit {0})) (d : Daemon) (username : Bytes)
    (keyed : d.signal_encryption_hash ≡ generate_signal_encryption_key p username) where
  -- The confirmation of an acceptance, and the session's configuration.
  accept-eq :
      (token source pair_id pair_key plain bytes : Bytes) (relay : Url)
      (ours : PairConnectionConfig) (w : World)
      → let nonce = steady.draw w.draws payload_nonce_size in
        let key = generate_signal_encryption_key p username in
        let sealed = p.gcm_seal (generate_encryption_nonce p token nonce) key plain in
        p.marshal_confirm (acceptance d relay pair_id) ≡ ok plain
        → p.marshal_exchange (record { exchange_body = some (confirm token nonce sealed) })
          ≡ ok bytes
        → service_config p rand d pair_id pair_key relay ≡ ok ours
        → accept p rand d token source pair_id pair_key relay w ≡ (
          ok ours,
          record w {
            sent = w.sent ++ (construct_transfer_packer d.transfer_code source bytes ∷ []);
            draws = suc w.draws;
          },
        )
  unfolding accept
  accept-eq token source pair_id pair_key plain bytes relay ours w m m' e =
      rw
        (
          daemon_challenge_confirm-eq p laws rand steady run_pipe d username keyed token source
              plain bytes (acceptance d relay pair_id) w m m',
          e,
        )
        refl

  -- The task's session is started behind the confirmation.
  serve_intention-starts :
      (token source pair_id pair_key : Bytes) (relay : Url) (task : Task) (w : World)
      (ours : PairConnectionConfig) (reply : Bytes)
      → permits d.permission (task_intention task) ≡ true
      → accept p rand d token source pair_id pair_key relay w
        ≡ (ok ours, record w { sent = w.sent ++ (reply ∷ []); draws = suc w.draws })
      → let v =
          (serve_intention p rand run_pipe d token source pair_id pair_key relay
            (some (task_intention task))
            w).1 in
        (v.sent ≡ w.sent ++ (reply ∷ []))
        × (v.sessions ≡ w.sessions ++ (daemon_session task ours ∷ []))
  unfolding serve_intention serve_pipe_out serve_forward_to serve_forward_from task_intention
  serve_intention-starts token source pair_id pair_key relay pipe_client w ours reply permitted e =
      elim (Outcome-cases (run_pipe ours)) [ inl (u, r) ↦ ground arith | inr f ↦ ground arith ]
  serve_intention-starts token source pair_id pair_key relay (port_forward_to_client a m b n) w ours
        reply permitted e =
      rw (permitted, e) (refl, refl)
  serve_intention-starts token source pair_id pair_key relay (port_forward_from_client a m b n) w
        ours reply permitted e =
      rw (permitted, e) (refl, refl)

  pub serve_response-starts :
      (token source plain bytes : Bytes) (response : ResponsePayload) (relay : Url) (task : Task)
      (w : World) (ours : PairConnectionConfig)
      → let pair_id = hex_encode (steady.draw w.draws pair_id_length) in
        let nonce = steady.draw (suc w.draws) payload_nonce_size in
        let key = generate_signal_encryption_key p username in
        let sealed = p.gcm_seal (generate_encryption_nonce p token nonce) key plain in
        response.intention ≡ some (task_intention task)
        → permits d.permission (task_intention task) ≡ true
        → get_relay_server p ≡ ok relay
        → p.marshal_confirm (acceptance d relay pair_id) ≡ ok plain
        → p.marshal_exchange (record { exchange_body = some (confirm token nonce sealed) })
          ≡ ok bytes
        → service_config p rand d pair_id response.pair_key relay ≡ ok ours
        → let v = (serve_response p rand run_pipe d token source response w).1 in
          (v.sent ≡ w.sent ++ (construct_transfer_packer d.transfer_code source bytes ∷ []))
          × (v.sessions ≡ w.sessions ++ (daemon_session task ours ∷ []))
  unfolding serve_response
  serve_response-starts token source plain bytes response relay task w ours wanted permitted r m m'
        e =
      let pair_id = hex_encode (steady.draw w.draws pair_id_length) in
      let drawn_one = record w { draws = suc w.draws } in
      let reply = construct_transfer_packer d.transfer_code source bytes in
      let started =
        serve_intention-starts token source pair_id response.pair_key relay task drawn_one ours
          reply permitted
          (accept-eq token source pair_id response.pair_key plain bytes relay ours drawn_one m m'
            e) in
      rw (r, steady.gives w.draws pair_id_length, wanted)
        (elim (Outcome-cases
          (serve_intention p rand run_pipe d token source pair_id response.pair_key relay
            (some (task_intention task)) drawn_one).0) [
              | inl (go_on, q) ↦ elim (Bool-cases go_on) [
                | inl b ↦ ground arith
                | inr b ↦ ground arith
              ]
              | inr f ↦ ground arith
            ])
