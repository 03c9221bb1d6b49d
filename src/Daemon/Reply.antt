-- ===== src/Daemon/Reply.antt =====
-- What a daemon writes for one datagram.
use pipie.Prelude.{
  suc, ◌≡◌, refl, ◌∙◌, ◌⊎◌, inl, inr, Option, none, some, List, [], ◌∷◌, ◌++◌, Bytes, text, arith,
  Outcome, Outcome-cases, Option-cases, Bool-cases,
}
use pipie.Platform.{Platform, Url}
use pipie.Transfer.{construct_transfer_packer}
use pipie.Exchange.{
  Intention, pipe_out, port_forward_to, port_forward_from, ExchangeBody, ResponsePayload,
  ConfirmPayload, challenge_response, challenge_request, challenge, confirm,
}
use pipie.Permission.{check_port_forward_in, check_port_forward_out, check_pipe_out}
use pipie.Keys.{
  hex_encode, payload_nonce_size, generate_encryption_nonce, construct_encrypted_payload,
}
use pipie.Pair.Builder.{PairConnectionConfig}
use pipie.Daemon.State.{Daemon, World, Entropy, has_token}
use pipie.Daemon.Confirm.{daemon_challenge_confirm, accept, acceptance, refusal}
use pipie.Daemon.Serve.{serve_pipe_out, serve_forward_to, serve_forward_from, serve_intention}
use pipie.Daemon.Handle.{
  get_relay_server, or_error, open_response, serve_response, handle_challenge_response,
  handle_challenge_request, handle_body, handle_exchange,
}
use pipie.Daemon.Delivery.{Delivers, handle_exchange-Delivers}

-- Nothing more was written, or one datagram, from the daemon to `dest`.
abbrev Sends : Daemon → Bytes → List Bytes → List Bytes → Type 0
Sends d dest before after =
    (after ≡ before)
    ⊎ ((payload : Bytes) × (after
          ≡ before ++ (construct_transfer_packer d.transfer_code dest payload ∷ [])))

abbrev pub RepliesTo : Daemon → Bytes → World → World → Type 0
RepliesTo d dest w v = Sends d dest w.sent v.sent

module _ (p : Platform) (rand : Entropy) (d : Daemon) where
  confirm-RepliesTo :
      (token dest : Bytes) (payload : ConfirmPayload) (w : World)
      → RepliesTo d dest w (daemon_challenge_confirm p rand d token dest payload w).1
  unfolding daemon_challenge_confirm
  confirm-RepliesTo token dest payload w = elim (Option-cases (rand w.draws payload_nonce_size)) [
    | inl n ↦ inl (ground arith)
    | inr (nonce, r) ↦
        elim (Outcome-cases (
          construct_encrypted_payload p (generate_encryption_nonce p token nonce)
            d.signal_encryption_hash (p.marshal_confirm payload))) [
              | inr f ↦ inl (ground arith)
              | inl (sealed, s) ↦
                  elim (Outcome-cases (
                    p.marshal_exchange
                      (record { exchange_body = some (confirm token nonce sealed) }))) [
                        | inr f ↦ inl (ground arith)
                        | inl (b, m) ↦ inr (b, ground arith)
                      ]
            ]
  ]

  accept-sent :
      (token source pair_id pair_key : Bytes) (relay : Url) (w : World)
      → (accept p rand d token source pair_id pair_key relay w).1.sent
        ≡ (daemon_challenge_confirm p rand d token source (acceptance d relay pair_id) w).1.sent
  unfolding accept
  accept-sent token source pair_id pair_key relay w = ground arith

module _ (p : Platform) (rand : Entropy) (run_pipe : PairConnectionConfig → Outcome (Unit {0}))
    (d : Daemon) where
  request-RepliesTo :
      (source : Bytes) (w : World)
      → RepliesTo d source w (handle_challenge_request p rand run_pipe d source w).1
  unfolding handle_challenge_request
  request-RepliesTo source w = elim (Option-cases (rand w.draws 32)) [
    | inl n ↦ inl (ground arith)
    | inr (token, r) ↦
        elim (Outcome-cases
          (p.marshal_exchange (record { exchange_body = some (challenge token []) }))) [
            | inr f ↦ inl (ground arith)
            | inl (b, m) ↦ inr (b, ground arith)
          ]
  ]

  by_sent :
      (dest : Bytes) (before l m : List Bytes)
      → m ≡ l
      → Sends d dest before l
      → Sends d dest before m
  by_sent dest before l m e (inl same) = inl (e ∙ same)
  by_sent dest before l m e (inr (payload, more)) = inr (payload, e ∙ more)

  module _ (token source pair_id pair_key : Bytes) (relay : Url) (w : World) where
    refused_reply :
        (m : List Bytes)
        → m ≡ (daemon_challenge_confirm p rand d token source refusal w).1.sent
        → Sends d source w.sent m
    refused_reply m e =
        by_sent source w.sent (daemon_challenge_confirm p rand d token source refusal w).1.sent m e
          (confirm-RepliesTo p rand d token source refusal w)

    accepted_reply :
        (m : List Bytes)
        → m ≡ (accept p rand d token source pair_id pair_key relay w).1.sent
        → Sends d source w.sent m
    accepted_reply m e =
        by_sent source w.sent
          (daemon_challenge_confirm p rand d token source (acceptance d relay pair_id) w).1.sent m
          (e ∙ accept-sent p rand d token source pair_id pair_key relay w)
          (confirm-RepliesTo p rand d token source (acceptance d relay pair_id) w)

    serve_intention-RepliesTo :
        (intention : Option Intention)
        → RepliesTo d source w
            (serve_intention p rand run_pipe d token source pair_id pair_key relay intention w).1
    unfolding serve_intention serve_pipe_out serve_forward_to serve_forward_from
    serve_intention-RepliesTo none = inl refl
    serve_intention-RepliesTo (some pipe_out) = elim (Bool-cases (check_pipe_out d.permission)) [
      | inl e ↦ accepted_reply _ (ground arith)
      | inr e ↦ refused_reply _ (ground arith)
    ]
    serve_intention-RepliesTo (some (port_forward_to none port)) = inl refl
    serve_intention-RepliesTo (some (port_forward_to (some host) none)) = inl refl
    serve_intention-RepliesTo (some (port_forward_to (some host) (some port))) =
        elim (Bool-cases (check_port_forward_in d.permission host port)) [
          | inl e ↦ accepted_reply _ (ground arith)
          | inr e ↦ refused_reply _ (ground arith)
        ]
    serve_intention-RepliesTo (some (port_forward_from none port)) = inl refl
    serve_intention-RepliesTo (some (port_forward_from (some host) none)) = inl refl
    serve_intention-RepliesTo (some (port_forward_from (some host) (some port))) =
        elim (Bool-cases (check_port_forward_out d.permission host port)) [
          | inl e ↦ accepted_reply _ (ground arith)
          | inr e ↦ refused_reply _ (ground arith)
        ]

  serve_response-RepliesTo :
      (token source : Bytes) (response : ResponsePayload) (w : World)
      → RepliesTo d source w (serve_response p rand run_pipe d token source response w).1
  unfolding serve_response
  serve_response-RepliesTo token source response w =
      elim (Outcome-cases (or_error (text "unable to get relay server") (get_relay_server p))) [
        | inr f ↦ inl (ground arith)
        | inl (relay, e) ↦ elim (Option-cases (rand w.draws 32)) [
          | inl n ↦ inl (ground arith)
          | inr (random, r) ↦
              elim (serve_intention-RepliesTo token source (hex_encode random) response.pair_key
                relay (record w { draws = suc w.draws }) response.intention) [
                  | inl same ↦ inl (ground arith)
                  | inr (payload, more) ↦ inr (payload, ground arith)
                ]
        ]
      ]

  response-RepliesTo :
      (source token nonce payload : Bytes) (w : World)
      → RepliesTo d source w
          (handle_challenge_response p rand run_pipe d source token nonce payload w).1
  unfolding handle_challenge_response
  response-RepliesTo source token nonce payload w =
      elim (Bool-cases (has_token (hex_encode token) w.token_map)) [
        | inr unknown ↦ inl (ground arith)
        | inl known ↦ elim (Outcome-cases (open_response p d token nonce payload)) [
          | inr f ↦ inl (ground arith)
          | inl (response, opened) ↦ elim (serve_response-RepliesTo token source response w) [
            | inl same ↦ inl (ground arith)
            | inr (reply, more) ↦ inr (reply, ground arith)
          ]
        ]
      ]

  body-RepliesTo :
      (source : Bytes) (body : ExchangeBody) (w : World)
      → RepliesTo d source w (handle_body p rand run_pipe d source (some body) w).1
  unfolding handle_body
  body-RepliesTo source challenge_request w = request-RepliesTo source w
  body-RepliesTo source (challenge t q) w = inl refl
  body-RepliesTo source (confirm t n q) w = inl refl
  body-RepliesTo source (challenge_response t n q) w = response-RepliesTo source t n q w

  -- For a datagram that holds a message from `source` for it, a daemon writes at most one datagram,
  -- from its own code to the code of that source, whatever the message and the state.
  pub handle_exchange-RepliesTo :
      (packet source : Bytes) (body : ExchangeBody) (w : World)
      → Delivers p d packet source body
      → RepliesTo d source w (handle_exchange p rand run_pipe d packet w).1
  handle_exchange-RepliesTo packet source body w v =
      rw (handle_exchange-Delivers p rand run_pipe d packet source body w v)
        (body-RepliesTo source body w)
