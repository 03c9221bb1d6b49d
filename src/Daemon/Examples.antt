-- ===== src/Daemon/Examples.antt =====
-- A daemon on the toy platform, and instances of the theorems about it.
use pipie.Prelude.{
  ℕ, ◌≤◌, All, ◌≡◌, refl, sym, true, false, some, List, [], ◌∷◌, ◌++◌, replicate, Bytes, text,
  arith, Outcome, ok, err, IsFailure, bytes_equal,
}
use pipie.Transfer.{construct_transfer_packer}
use pipie.Exchange.{challenge_response}
use pipie.Permission.{check_port_forward_in, check_pipe_out}
use pipie.Keys.{
  hex_encode, generate_encryption_nonce, generate_pair_conn_key, exchange_decrypt, exchange_encrypt,
  construct_encrypted_payload,
}
use pipie.Pair.Builder.{
  PairConnectionConfig, build, set_relay_perm, set_tls, set_rendezvous_server, set_pair_id_and_key,
  set_force_relay, new_pair_conn_config_builder,
}
use pipie.Daemon.State.{
  Daemon, World, Entropy, has_token, delete_token, get_random_bytes, revoke_token, write_frame,
  start_session,
}
use pipie.Daemon.Confirm.{accept, daemon_challenge_confirm, service_config}
use pipie.Daemon.Serve.{serve_intention, serve_forward_to, serve_pipe_out}
use pipie.Daemon.Handle.{
  handle_exchange, handle_frame, handle_body, handle_challenge_response, serve_response,
  open_response, get_relay_server,
}
use pipie.Daemon.Reply.{RepliesTo, handle_exchange-RepliesTo}
use pipie.Daemon.Delivery.{Delivers}
use pipie.Daemon.Permitted.{AtMostOne}
use pipie.Daemon.Authorized.{Authorizes, handle_exchange-authorized}
use pipie.Daemon.Replay.{failure_keeps_tokens}
use pipie.Daemon.Spent.{NotDrawnFrom, replay_refused}
use pipie.Daemon.Loop.{Read, received, daemon_loop, new_world}
use pipie.Daemon.Origin.{Answers, daemon_loop-answers}
use pipie.Platform.Toy.{toy}

-- The n-th draw is n in every byte.
abbrev counting : Entropy
counting n size = some (replicate size n)

abbrev no_pipe : PairConnectionConfig → Outcome (Unit {0})
no_pipe config = ok tt

abbrev node : Bytes
node = replicate 32 5

abbrev visitor : Bytes
visitor = replicate 32 6

abbrev server : Daemon
server = record {
  transfer_code = node;
  signal_encryption_hash = replicate 32 8;
  access_key = text "key";
  permission = record {
    register = record {
      pipe_out_allow = false;
      forward_allow = 1;
      forward_host = text "h";
      forward_port = 22;
    };
  };
  cert = some (text "cert");
  cert_hash = replicate 32 9;
  force_relay = false;
}

abbrev to_node : Bytes → Bytes
to_node payload = 1 ∷ (visitor ++ (node ++ payload))

abbrev token : Bytes
token = replicate 32 0

abbrev asks : Bytes
asks = to_node (0 ∷ [])

abbrev answers : Bytes
answers = to_node (1 ∷ (token ++ text "h"))

-- The world after a challenge that drew `token`.
abbrev challenged : World
challenged = record {
  token_map = (hex_encode token, 0) ∷ [];
  sent = [];
  sessions = [];
  killed = false;
  draws = 1;
  now = 0;
}

answers-Delivers : Delivers toy server answers visitor (challenge_response token [] (text "h"))
answers-Delivers = record {
  frame = record { version = 1; source = visitor; destination = node };
  from = refl;
  long_enough = omega arith;
  versioned = refl;
  header = refl;
  addressed = refl;
  message = refl;
}

-- The second response, which asks for a pipe with the same token.
abbrev repeats : Bytes
repeats = to_node (1 ∷ token)

repeats-Delivers :
    (d : Daemon)
    → d.transfer_code ≡ node
    → Delivers toy d repeats visitor (challenge_response token [] [])
repeats-Delivers d h = record {
  frame = record { version = 1; source = visitor; destination = node };
  from = refl;
  long_enough = omega arith;
  versioned = refl;
  header = refl;
  addressed = sym h;
  message = refl;
}

answers_done : (handle_exchange toy counting no_pipe server answers challenged).0 ≡ ok tt
unfolding handle_exchange handle_frame handle_body handle_challenge_response serve_response
    open_response serve_intention serve_forward_to accept daemon_challenge_confirm service_config
    build set_relay_perm set_tls set_rendezvous_server set_pair_id_and_key set_force_relay
    new_pair_conn_config_builder check_port_forward_in has_token delete_token hex_encode
    generate_encryption_nonce generate_pair_conn_key exchange_decrypt exchange_encrypt
    construct_encrypted_payload get_relay_server start_session revoke_token get_random_bytes
    write_frame construct_transfer_packer bytes_equal
answers_done = refl

server_goes_on : (handle_exchange toy counting no_pipe server answers challenged).1.killed ≡ false
unfolding handle_exchange handle_frame handle_body handle_challenge_response serve_response
    open_response serve_intention serve_forward_to accept daemon_challenge_confirm service_config
    build set_relay_perm set_tls set_rendezvous_server set_pair_id_and_key set_force_relay
    new_pair_conn_config_builder check_port_forward_in has_token delete_token hex_encode
    generate_encryption_nonce generate_pair_conn_key exchange_decrypt exchange_encrypt
    construct_encrypted_payload get_relay_server start_session revoke_token get_random_bytes
    write_frame construct_transfer_packer bytes_equal
server_goes_on = refl

answers_draws : 1 ≤ (handle_exchange toy counting no_pipe server answers challenged).1.draws
unfolding handle_exchange handle_frame handle_body handle_challenge_response serve_response
    open_response serve_intention serve_forward_to accept daemon_challenge_confirm service_config
    build set_relay_perm set_tls set_rendezvous_server set_pair_id_and_key set_force_relay
    new_pair_conn_config_builder check_port_forward_in has_token delete_token hex_encode
    generate_encryption_nonce generate_pair_conn_key exchange_decrypt exchange_encrypt
    construct_encrypted_payload get_relay_server start_session revoke_token get_random_bytes
    write_frame construct_transfer_packer bytes_equal
answers_draws = omega arith

two_heads :
    {x y x' y' : ℕ} {xs ys : Bytes}
    → ◌≡◌ {A = Bytes} (x ∷ y ∷ xs) (x' ∷ y' ∷ ys)
    → (x ≡ x') × (y ≡ y') × (xs ≡ ys)
two_heads e = (cc, cc, cc)

abbrev pipe_server : Daemon
pipe_server = record server {
  permission = record {
    register = record {
      pipe_out_allow = true;
      forward_allow = 0;
      forward_host = [];
      forward_port = 0;
    };
  };
}

abbrev broken_pipe : PairConnectionConfig → Outcome (Unit {0})
broken_pipe config = err (text "timeout")

pipe_fails : IsFailure (handle_exchange toy counting broken_pipe pipe_server repeats challenged).0
unfolding handle_exchange handle_frame handle_body handle_challenge_response serve_response
    open_response serve_intention serve_pipe_out accept daemon_challenge_confirm service_config
    build set_relay_perm set_tls set_rendezvous_server set_pair_id_and_key set_force_relay
    new_pair_conn_config_builder check_pipe_out has_token delete_token hex_encode
    generate_encryption_nonce generate_pair_conn_key exchange_decrypt exchange_encrypt
    construct_encrypted_payload get_relay_server start_session revoke_token get_random_bytes
    write_frame construct_transfer_packer bytes_equal
pipe_fails = tt

handle_exchange-authorized_example :
    AtMostOne challenged
      (handle_exchange toy counting no_pipe server answers challenged).1
      (Authorizes toy server challenged answers)
handle_exchange-authorized_example =
    handle_exchange-authorized toy counting no_pipe server answers challenged

-- No later draw is that of the first token.
encoded_first : (i : ℕ) → hex_encode (replicate 32 i) ≡ hex_encode token → i ≡ 0
unfolding hex_encode
encoded_first i e = let (high, low, rest) = two_heads e in ground (arith, high, low)

counting-NotDrawnFrom : NotDrawnFrom counting 1 (hex_encode token)
counting-NotDrawnFrom i drawn l e same =
    let is_draw : drawn ≡ replicate 32 i = cc in
    let zero : i ≡ 0 = encoded_first i (rw is_draw at same) in omega arith

counting-NotDrawnFrom_mono : (n : ℕ) → 1 ≤ n → NotDrawnFrom counting n (hex_encode token)
counting-NotDrawnFrom_mono n h i drawn l e = counting-NotDrawnFrom i drawn (omega arith) e

-- Between the two responses there is another challenge.
replay_refused_example :
    let v = (handle_exchange toy counting no_pipe server answers challenged).1 in
    let u = daemon_loop toy counting no_pipe server (received asks ∷ []) v in
    handle_exchange toy counting no_pipe server repeats u ≡ (err (text "token not found"), u)
replay_refused_example =
    replay_refused toy counting no_pipe server answers visitor token [] (text "h") challenged
      answers-Delivers answers_done refl server_goes_on (received asks ∷ [])
      (counting-NotDrawnFrom_mono _ answers_draws) repeats visitor [] []
      (repeats-Delivers server refl)

failure_keeps_tokens_example :
    (handle_exchange toy counting broken_pipe pipe_server repeats challenged).1.token_map
    ≡ challenged.token_map
failure_keeps_tokens_example =
    failure_keeps_tokens toy counting broken_pipe pipe_server repeats visitor token [] [] challenged
      (repeats-Delivers pipe_server refl) pipe_fails

abbrev exchange : List Read
exchange = received asks ∷ received answers ∷ []

daemon_loop-answers_example :
    All
      (Answers toy counting no_pipe server exchange)
      (daemon_loop toy counting no_pipe server exchange new_world).sessions
daemon_loop-answers_example = daemon_loop-answers toy counting no_pipe server exchange

handle_exchange-RepliesTo_example :
    RepliesTo server visitor challenged
      (handle_exchange toy counting no_pipe server answers challenged).1
handle_exchange-RepliesTo_example =
    handle_exchange-RepliesTo toy counting no_pipe server answers visitor
      (challenge_response token [] (text "h")) challenged answers-Delivers
