-- ===== src/Handshake/DaemonRun.antt =====
-- A daemon's handling of the two messages of a client.
use mathlib.Core.Path.{subst}
use pipie.Prelude.{
  ℕ, suc, none, ◌≡◌, refl, ap, ◌∙◌, true, some, [], ◌∷◌, ◌++◌, length, Bytes, Outcome, ok,
  append_assoc, take_all, ◌+◌, ◌≤◌, arith, bytes_equal_refl, if◌then◌else◌,
}
use pipie.Platform.{Platform, Url}
use pipie.Transfer.{transfer_frame_size, construct_transfer_packer}
use pipie.Transfer.Layout.{length-construct_transfer_packer}
use pipie.Exchange.{ExchangeBody, ResponsePayload, challenge_request}
use pipie.Keys.{
  challenge_token_size, pair_id_length, payload_nonce_size, hex_encode, generate_transfer_code,
  generate_signal_encryption_key,
}
use pipie.Pair.Builder.{PairConnectionConfig}
use pipie.Client.Tasks.{Task, task_intention}
use pipie.CommandLine.Directions.{permits}
use pipie.Daemon.State.{Daemon, World, Entropy, has_token, put_token}
use pipie.Daemon.Confirm.{acceptance, service_config}
use pipie.Daemon.Handle.{get_relay_server, handle_exchange, handle_body, serve_response}
use pipie.Daemon.Loop.{received, into_buffer, daemon_loop}
use pipie.Daemon.Tokens.{has_token-put}
use pipie.Daemon.Delivery.{Delivers, handle_exchange-Delivers}
use pipie.Handshake.Laws.{PlatformLaws, Steady}
use pipie.Handshake.Messages.{
  Drawn, Messages, request_packet, challenge_packet, response_packet, confirm_packet,
}
use pipie.Handshake.DaemonSide.{
  packet-Delivers, handle_challenge_request-eq, handle_challenge_response-eq,
}
use pipie.Handshake.Serving.{daemon_session, serve_response-starts}

has_token-issued :
    (key : Bytes) (w : World) → has_token key (put_token key w.now w.token_map) ≡ true
has_token-issued key w =
    has_token-put key key w.now w.token_map
    ∙ ap (λ b. if b then true else has_token key w.token_map) (bytes_equal_refl key)

-- The pair id that the daemon makes in a world of so many draws.
abbrev pub drawn_pair_id : {rand : Entropy} → Steady rand → ℕ → Bytes
drawn_pair_id steady draws = hex_encode (steady.draw (suc draws) pair_id_length)

module _ (p : Platform) (laws : PlatformLaws p) (rand : Entropy) (steady : Steady rand)
    (run_pipe : PairConnectionConfig → Outcome (Unit {0})) (d : Daemon) (username : Bytes)
    (node : d.transfer_code ≡ generate_transfer_code p username)
    (keyed : d.signal_encryption_hash ≡ generate_signal_encryption_key p username) where
  node_length : length d.transfer_code ≡ 32
  unfolding generate_transfer_code
  node_length = ap length node ∙ laws.sum_size username

  reaches :
      (source bytes : Bytes) (body : ExchangeBody)
      → length source ≡ 32
      → p.marshal_exchange (record { exchange_body = some body }) ≡ ok bytes
      → Delivers p d
          (construct_transfer_packer source (generate_transfer_code p username) bytes)
          source
          body
  reaches source bytes body h m =
      subst (λ n. Delivers p d (construct_transfer_packer source n bytes) source body) node
        (packet-Delivers p laws rand steady run_pipe d source bytes body h node_length m)

  module _ (v : World) (code nonce pair_key : Bytes) (task : Task) (relay : Url) where
    abbrev pub daemon_drawn : Drawn
    daemon_drawn = record {
      code = code;
      token = steady.draw v.draws challenge_token_size;
      nonce = nonce;
      pair_key = pair_key;
      reply_nonce = steady.draw (suc (suc v.draws)) payload_nonce_size;
    }

    module _
        (m : Messages p username daemon_drawn
          (task_intention task)
          (acceptance d relay (drawn_pair_id steady v.draws)))
        (coded : length code ≡ 32) where
      abbrev issued_world : World
      issued_world = record v {
        token_map = put_token (hex_encode daemon_drawn.token) v.now v.token_map;
        sent = v.sent ++ (construct_transfer_packer d.transfer_code code m.challenge_bytes ∷ []);
        draws = suc v.draws;
      }

      first_message :
          handle_exchange p rand run_pipe d (request_packet p username m) v ≡ (ok tt, issued_world)
      unfolding handle_body
      first_message =
          handle_exchange-Delivers p rand run_pipe d (request_packet p username m) code
            challenge_request v (reaches code m.request challenge_request coded m.requests)
          ∙ handle_challenge_request-eq p laws rand steady run_pipe d code m.challenge_bytes v
              m.challenges

      abbrev wanted : ResponsePayload
      wanted = record {
        pair_key = pair_key;
        force_relay = none;
        intention = some (task_intention task);
      }

      second_message :
          handle_exchange p rand run_pipe d (response_packet p username m) issued_world
          ≡ serve_response p rand run_pipe d daemon_drawn.token code wanted issued_world
      unfolding handle_body
      second_message =
          handle_exchange-Delivers p rand run_pipe d (response_packet p username m) code _
            issued_world (reaches code m.response_bytes _ coded m.responds)
          ∙ handle_challenge_response-eq p laws rand steady run_pipe d username keyed code
              daemon_drawn.token nonce m.response_plain wanted issued_world
              (has_token-issued (hex_encode daemon_drawn.token) v) m.response_writes

      fits_whole :
          (source dest bytes : Bytes)
          → transfer_frame_size + length bytes ≤ 1500
          → into_buffer (construct_transfer_packer source dest bytes)
            ≡ construct_transfer_packer source dest bytes
      fits_whole source dest bytes h =
          take_all 1500 _ (omega (arith, length-construct_transfer_packer source dest bytes, h))

      loop-eq :
          daemon_loop p rand run_pipe d
            (received (request_packet p username m)
              ∷ (received (response_packet p username m) ∷ []))
            v
          ≡ (serve_response p rand run_pipe d daemon_drawn.token code wanted issued_world).1
      unfolding daemon_loop
      loop-eq =
          let asks = request_packet p username m in
          let answers = response_packet p username m in
          let serve = λ (b : Bytes) (r : Outcome (Unit {0}) × World).
            (handle_exchange p rand run_pipe d b r.1).1 in
          ap (λ b. serve (into_buffer answers) (handle_exchange p rand run_pipe d b v))
            (fits_whole code (generate_transfer_code p username) m.request m.request_fits)
          ∙ ap (λ b. serve b (handle_exchange p rand run_pipe d asks v))
              (fits_whole code (generate_transfer_code p username) m.response_bytes m.response_fits)
          ∙ ap (serve answers) first_message
          ∙ ap (λ r. r.1) second_message

      both_sent :
          issued_world.sent ++ (construct_transfer_packer d.transfer_code code m.confirm_bytes ∷ [])
          ≡ v.sent ++ (challenge_packet p username m ∷ (confirm_packet p username m ∷ []))
      both_sent =
          append_assoc v.sent _ _
          ∙ ap
              (λ n.
                v.sent
                ++ (construct_transfer_packer n code m.challenge_bytes
                    ∷ (construct_transfer_packer n code m.confirm_bytes ∷ [])))
              node

      -- The daemon sends its two messages and starts the session of the task.
      pub daemon_loop-serves :
          (ours : PairConnectionConfig)
          → permits d.permission (task_intention task) ≡ true
          → get_relay_server p ≡ ok relay
          → service_config p rand d (drawn_pair_id steady v.draws) pair_key relay ≡ ok ours
          → let w =
              daemon_loop p rand run_pipe d
                (received (request_packet p username m)
                  ∷ (received (response_packet p username m) ∷ []))
                v in
            (w.sent
              ≡ v.sent ++ (challenge_packet p username m ∷ (confirm_packet p username m ∷ [])))
            × (w.sessions ≡ v.sessions ++ (daemon_session task ours ∷ []))
      daemon_loop-serves ours permitted r e =
          let served =
            serve_response-starts p laws rand steady run_pipe d username keyed daemon_drawn.token
              code m.confirm_plain m.confirm_bytes wanted relay task issued_world ours refl
              permitted r m.confirm_writes m.confirms e in
          (ap (λ w. w.sent) loop-eq ∙ served.0 ∙ both_sent, ap (λ w. w.sessions) loop-eq ∙ served.1)
