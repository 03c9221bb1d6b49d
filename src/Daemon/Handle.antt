-- ===== src/Daemon/Handle.antt =====
-- handleExchange of internal/pipie/daemon.go: one datagram in, replies and sessions out.
use pipie.Prelude.{
  Bool, true, false, Option, none, some, [], ◌∷◌, Bytes, text, bytes_equal, take, drop, length, ltb,
  ◌==◌, Action, Outcome, ok, err, panic, pure, fail, lift, ◌>>=◌, ◌>>◌, if◌then◌else◌,
}
use pipie.Platform.{Platform, Url}
use pipie.Transfer.{TransferFrame, transfer_frame_size, transfer_version, construct_transfer_packer}
use pipie.Exchange.{
  ExchangeBody, ResponsePayload, challenge_request, challenge, challenge_response, confirm,
}
use pipie.Keys.{
  challenge_token_size, pair_id_length, hex_encode, exchange_decrypt, generate_encryption_nonce,
}
use pipie.Pair.Builder.{PairConnectionConfig}
use pipie.Daemon.State.{
  Daemon, World, Entropy, has_token, get_random_bytes, issue_token, revoke_token, write_frame,
}
use pipie.Daemon.Serve.{serve_intention}

-- A value that came with an error is not used.
abbrev pub checked {ℓ} : {A : Type ℓ} → A × Option Bytes → Outcome A
checked (a, none) = ok a
checked (a, some e) = err e

abbrev pub or_error {ℓ} : {A : Type ℓ} → Bytes → Outcome A → Outcome A
or_error message (ok a) = ok a
or_error message (err e) = err message
or_error message (panic e) = panic e

-- getRelayServer of internal/pipie/util.go parses a constant.
abbrev pub relay_address : Bytes
relay_address =
    text
      "relay://31.220.45.3:22067/?id=OHWS367-33NI2O3-GRQQVWG-6SHK655-ETRIJCC-GYTLNCT-2CBUXX5-XFFHCQ4&pingInterval=1m0s&networkTimeout=2m0s&sessionLimitBps=0&globalLimitBps=0&statusAddr=:22070&providedBy=https://blog.veloc1ty.de"

unfoldable pub get_relay_server : Platform → Outcome Url
get_relay_server p = p.parse_url relay_address

module _ (p : Platform) (d : Daemon) where
  -- What the daemon reads of a response: the decrypted and parsed payload.
  unfoldable pub open_response : Bytes → Bytes → Bytes → Outcome ResponsePayload
  open_response token nonce payload =
      elim (exchange_decrypt p (generate_encryption_nonce p token nonce) d.signal_encryption_hash
        payload) [
          | ok plain ↦ checked (p.unmarshal_response plain)
          | err e ↦ err (text "cannot decrypt and authenticate challenge")
          | panic e ↦ panic e
        ]

module _ (p : Platform) (rand : Entropy) (run_pipe : PairConnectionConfig → Outcome (Unit {0}))
    (d : Daemon) where
  unfoldable pub handle_challenge_request : Bytes → Action World (Unit {0})
  unfolding get_random_bytes issue_token write_frame
  handle_challenge_request source = do
    token ← get_random_bytes rand challenge_token_size
    issue_token (hex_encode token)
    send_payload ← lift (p.marshal_exchange (record { exchange_body = some (challenge token []) }))
    write_frame (construct_transfer_packer d.transfer_code source send_payload)

  abbrev pub forget : Bytes → Bool → Action World (Unit {0})
  forget token true = revoke_token (hex_encode token)
  forget token false = pure tt

  unfoldable pub serve_response : Bytes → Bytes → ResponsePayload → Action World (Unit {0})
  unfolding get_random_bytes revoke_token
  serve_response token source response = do
    relay ← lift (or_error (text "unable to get relay server") (get_relay_server p))
    random ← get_random_bytes rand pair_id_length
    go_on ←
        serve_intention p rand run_pipe d token source (hex_encode random) response.pair_key relay
          response.intention
    forget token go_on

  unfoldable pub handle_challenge_response : Bytes → Bytes → Bytes → Bytes → Action World (Unit {0})
  handle_challenge_response source token nonce payload w =
      if has_token (hex_encode token) w.token_map
      then (lift (open_response p d token nonce payload) >>= serve_response token source) w
      else (err (text "token not found"), w)

  unfoldable pub handle_body : Bytes → Option ExchangeBody → Action World (Unit {0})
  handle_body source (some challenge_request) = handle_challenge_request source
  handle_body source (some (challenge token payload)) =
      fail (text "exchange type error (is ExchangeFrame_Challenge)")
  handle_body source (some (challenge_response token nonce payload)) =
      handle_challenge_response source token nonce payload
  handle_body source (some (confirm token nonce payload)) =
      fail (text "exchange type error (is ExchangeFrame_Confirm)")
  handle_body source none = fail (text "exchange type unknown")

  -- A packet for another node is dropped with the nil error of the last call.
  unfoldable pub handle_frame : TransferFrame → Bytes → Action World (Unit {0})
  handle_frame frame payload =
      if bytes_equal frame.destination d.transfer_code
      then (do
        exchange ← lift (checked (p.unmarshal_exchange payload))
        handle_body frame.source exchange.exchange_body)
      else pure tt

  -- `oriPayload[0]` of an empty packet panics.
  unfoldable pub handle_exchange : Bytes → Action World (Unit {0})
  handle_exchange [] = lift (panic (text "index out of range"))
  handle_exchange (version ∷ rest) =
      let packet = version ∷ rest in
      if version == transfer_version
      then if ltb (length packet) transfer_frame_size then fail (text "payload too small") else (do
        frame ← lift (p.unpack_frame (take transfer_frame_size packet))
        handle_frame frame (drop transfer_frame_size packet))
      else fail (text "transfer version mismatch")
