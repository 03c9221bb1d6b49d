-- ===== src/Daemon/Authorized.antt =====
-- Which datagrams make a daemon start a session.
use pipie.Prelude.{
  bytes_equal, true, ◌≡◌, refl, inl, inr, Option, none, some, [], ◌∷◌, Bytes, arith, Outcome, ok,
  Outcome-cases, Bool-cases, take, drop, bytes_equal_iff, length, ◌≤◌, ltb, ◌==◌,
}
use pipie.Platform.{Platform}
use pipie.Transfer.{TransferFrame, transfer_frame_size, transfer_version}
use pipie.Exchange.{
  ExchangeBody, ResponsePayload, challenge_response, challenge_request, challenge, confirm,
}
use pipie.Keys.{hex_encode, generate_encryption_nonce}
use pipie.Pair.Builder.{PairConnectionConfig}
use pipie.Daemon.State.{Daemon, World, Entropy, Session, has_token}
use pipie.Daemon.Handle.{
  open_response, handle_challenge_response, handle_body, handle_frame, handle_exchange, checked,
}
use pipie.Daemon.Permitted.{
  Permitted, AtMostOne, open_response-eq_ok, serve_response-AtMostOne,
  handle_challenge_request-sessions,
}

-- A datagram that makes the daemon `d`, in the state `w`, start the session `s`: a challenge
-- response for this node, with a token that is known, whose payload is authentic and asks for what
-- the checker permits.
pub record Authorizes (p : Platform) (d : Daemon) (w : World) (packet : Bytes) (s : Session)
    : Type 0 where
  pub frame : TransferFrame
  pub token : Bytes
  pub nonce : Bytes
  pub payload : Bytes
  pub plain : Bytes
  pub response : ResponsePayload
  pub long_enough : transfer_frame_size ≤ length packet
  pub versioned : take 1 packet ≡ transfer_version ∷ []
  pub header : p.unpack_frame (take transfer_frame_size packet) ≡ ok frame
  pub addressed : frame.destination ≡ d.transfer_code
  pub body :
      p.unmarshal_exchange (drop transfer_frame_size packet)
      ≡ (record { exchange_body = some (challenge_response token nonce payload) }, none)
  pub known : has_token (hex_encode token) w.token_map ≡ true
  pub authentic :
      p.gcm_open (generate_encryption_nonce p token nonce) d.signal_encryption_hash payload
      ≡ some plain
  pub parsed : p.unmarshal_response plain ≡ (response, none)
  pub permitted : Permitted d response.intention s

module _ (p : Platform) (rand : Entropy) (run_pipe : PairConnectionConfig → Outcome (Unit {0}))
    (d : Daemon) where
  -- The response half of `Authorizes`.
  record Accepts (w : World) (token nonce payload : Bytes) (s : Session) : Type 0 where
    plain : Bytes
    response : ResponsePayload
    known : has_token (hex_encode token) w.token_map ≡ true
    authentic :
        p.gcm_open (generate_encryption_nonce p token nonce) d.signal_encryption_hash payload
        ≡ some plain
    parsed : p.unmarshal_response plain ≡ (response, none)
    permitted : Permitted d response.intention s

  handle_challenge_response-AtMostOne :
      (source token nonce payload : Bytes) (w : World)
      → AtMostOne w
          (handle_challenge_response p rand run_pipe d source token nonce payload w).1
          (Accepts w token nonce payload)
  unfolding handle_challenge_response
  handle_challenge_response-AtMostOne source token nonce payload w =
      elim (Bool-cases (has_token (hex_encode token) w.token_map)) [
        | inr unknown ↦ inl (ground arith)
        | inl known ↦ elim (Outcome-cases (open_response p d token nonce payload)) [
          | inr f ↦ inl (ground arith)
          | inl (response, opened) ↦
              elim (serve_response-AtMostOne p rand run_pipe d token source response w) [
                | inl same ↦ inl (ground arith)
                | inr (s, permitted, more) ↦
                    let (plain, authentic, parsed) =
                      open_response-eq_ok p d token nonce payload opened in
                    inr (
                      s,
                      record {
                        plain = plain;
                        response = response;
                        known = known;
                        authentic = authentic;
                        parsed = parsed;
                        permitted = permitted;
                      },
                      ground arith,
                    )
              ]
        ]
      ]

  record FrameAccepts (w : World) (frame : TransferFrame) (bytes : Bytes) (s : Session)
      : Type 0 where
    token : Bytes
    nonce : Bytes
    payload : Bytes
    addressed : frame.destination ≡ d.transfer_code
    body :
        p.unmarshal_exchange bytes
        ≡ (record { exchange_body = some (challenge_response token nonce payload) }, none)
    accepts : Accepts w token nonce payload s

  handle_parsed-AtMostOne :
      (w : World) (frame : TransferFrame) (bytes : Bytes) (body : Option ExchangeBody)
      → frame.destination ≡ d.transfer_code
      → p.unmarshal_exchange bytes ≡ (record { exchange_body = body }, none)
      → AtMostOne w
          (handle_body p rand run_pipe d frame.source body w).1
          (FrameAccepts w frame bytes)
  unfolding handle_body
  handle_parsed-AtMostOne w frame bytes none a b = inl refl
  handle_parsed-AtMostOne w frame bytes (some challenge_request) a b =
      inl (handle_challenge_request-sessions p rand run_pipe d frame.source w)
  handle_parsed-AtMostOne w frame bytes (some (challenge t q)) a b = inl refl
  handle_parsed-AtMostOne w frame bytes (some (confirm t n q)) a b = inl refl
  handle_parsed-AtMostOne w frame bytes (some (challenge_response t n q)) a b =
      elim (handle_challenge_response-AtMostOne frame.source t n q w) [
        | inl same ↦ inl same
        | inr (s, accepts, more) ↦ inr (
          s,
          record { token = t; nonce = n; payload = q; addressed = a; body = b; accepts = accepts },
          more,
        )
      ]

  handle_frame-AtMostOne :
      (w : World) (frame : TransferFrame) (bytes : Bytes)
      → AtMostOne w (handle_frame p rand run_pipe d frame bytes w).1 (FrameAccepts w frame bytes)
  unfolding handle_frame
  handle_frame-AtMostOne w frame bytes =
      elim (Bool-cases (bytes_equal frame.destination d.transfer_code)) [
        | inr other ↦ inl (ground arith)
        | inl same ↦ elim (Outcome-cases (checked (p.unmarshal_exchange bytes))) [
          | inr f ↦ inl (ground arith)
          | inl (exchange, e) ↦
              rw (same, e)
                (handle_parsed-AtMostOne w frame bytes exchange.exchange_body
                  ((bytes_equal_iff _ _).0 same) (ground arith))
        ]
      ]

  -- A datagram makes a daemon start at most one session, and only if it authorizes it: whatever
  -- the datagram, the state and the random bytes, the list of sessions is left as it was or
  -- extended by one session that the datagram authorizes.
  pub handle_exchange-authorized :
      (packet : Bytes) (w : World)
      → AtMostOne w (handle_exchange p rand run_pipe d packet w).1 (Authorizes p d w packet)
  unfolding handle_exchange
  handle_exchange-authorized [] w = inl refl
  handle_exchange-authorized (version ∷ rest) w =
      let packet = version ∷ rest in
      elim (Bool-cases (version == transfer_version)) [
        | inr other ↦ inl (ground arith)
        | inl same ↦ elim (Bool-cases (ltb (length packet) transfer_frame_size)) [
          | inl short ↦ inl (ground arith)
          | inr long ↦ elim (Outcome-cases (p.unpack_frame (take transfer_frame_size packet))) [
            | inr f ↦ inl (ground arith)
            | inl (frame, header) ↦
                elim (handle_frame-AtMostOne w frame (drop transfer_frame_size packet)) [
                  | inl nothing ↦ inl (ground arith)
                  | inr (s, f, more) ↦ inr (
                    s,
                    record {
                      frame = frame;
                      token = f.token;
                      nonce = f.nonce;
                      payload = f.payload;
                      plain = f.accepts.plain;
                      response = f.accepts.response;
                      long_enough = ground arith;
                      versioned = ground arith;
                      header = header;
                      addressed = f.addressed;
                      body = f.body;
                      known = f.accepts.known;
                      authentic = f.accepts.authentic;
                      parsed = f.accepts.parsed;
                      permitted = f.accepts.permitted;
                    },
                    ground arith,
                  )
                ]
          ]
        ]
      ]
