-- ===== src/Client/Exchanges.antt =====
-- `client` of internal/pipie/client.go, up to the pair builder: the challenge request, the response
-- and the check of the confirmation. The outcomes of the two blocking `conn.Read` calls are
-- arguments. The receive buffer is one array of 1500 bytes, which a read fills from its start.
use pipie.Prelude.{
  ℕ, suc, Bool, true, false, Option, none, some, List, [], ◌∷◌, ◌++◌, take, drop, replicate, Bytes,
  text, bytes_equal, copy, Action, Outcome, ok, err, panic, pure, fail, lift, ◌>>=◌, ◌>>◌,
  if◌then◌else◌,
}
use pipie.Platform.{Platform, Url}
use pipie.Transfer.{transfer_frame_size, construct_transfer_packer}
use pipie.Exchange.{
  ExchangeBody, Intention, ConfirmPayload, challenge_request, challenge, challenge_response,
  confirm,
}
use pipie.Keys.{
  payload_nonce_size, pairing_key_size, generate_transfer_code, generate_signal_encryption_key,
  generate_encryption_nonce, generate_pair_conn_key, construct_encrypted_payload, exchange_decrypt,
}
use pipie.Pair.Builder.{
  PairConnectionConfig, new_pair_conn_config_builder, set_pair_id_and_key, set_rendezvous_server,
  set_tls, set_relay_temp, set_force_relay,
}
use pipie.Daemon.State.{Entropy, drawn}
use pipie.Daemon.Serve.{deref}
use pipie.Daemon.Loop.{Read, received, read_error}

-- What a client does to its surroundings, and its receive buffer.
pub record ClientWorld : Type 0 where
  pub sent : List Bytes
  pub draws : ℕ
  pub receive_buf : Bytes
  pub closed : Bool

-- The arguments of `client` that stay fixed.
pub record Client : Type 0 where
  pub username : Bytes
  pub access_key : Bytes
  pub cert : Option Bytes
  pub force_relay : Bool

abbrev pub new_client_world : ClientWorld
new_client_world = record { sent = []; draws = 0; receive_buf = replicate 1500 0; closed = false }

unfoldable pub client_random : Entropy → ℕ → Action ClientWorld Bytes
client_random rand size w = (drawn (rand w.draws size), record w { draws = suc w.draws })

unfoldable pub client_write : Bytes → Action ClientWorld (Unit {0})
client_write frame w = (ok tt, record w { sent = w.sent ++ (frame ∷ []) })

unfoldable pub client_read : Read → Action ClientWorld Bytes
client_read (received b) w =
    let buf = copy w.receive_buf b in (ok buf, record w { receive_buf = buf })
client_read (read_error e) w = (err e, w)

unfoldable pub client_close : Action ClientWorld (Unit {0})
client_close w = (ok tt, record w { closed = true })

abbrev pub as_challenge : Option ExchangeBody → Outcome Bytes
as_challenge (some (challenge token payload)) = ok token
as_challenge _ = err (text "receive unexpected response from peer")

pub record Confirmation : Type 0 where
  pub token : Bytes
  pub nonce : Bytes
  pub payload : Bytes

abbrev as_confirm : Option ExchangeBody → Outcome Confirmation
as_confirm (some (confirm token nonce payload)) =
    ok (record { token = token; nonce = nonce; payload = payload })
as_confirm _ = err (text "receive unexpected response from peer")

abbrev parse_or_error : ConfirmPayload × Option Bytes → Outcome ConfirmPayload
parse_or_error (c, none) = ok c
parse_or_error (c, some e) = err (text "cannot parse payload")

abbrev decrypted : Outcome Bytes → Outcome Bytes
decrypted (ok plain) = ok plain
decrypted (err e) = err (text "cannot decrypt and authenticate confirmation")
decrypted (panic e) = panic e

abbrev failing_result : Option Bytes → Bytes
failing_result none = text "receive failing result"
failing_result (some m) = text "receive failing result: " ++ m

-- A relay that does not parse counts as none.
abbrev parsed_relay : Platform → Option Bytes → Option Url
parsed_relay p none = none
parsed_relay p (some s) = elim (p.parse_url s) [ ok u ↦ some u | _ ↦ none ]

-- The relay and the pair id, both of which have to be there.
abbrev complete : Option Bytes → Option Url → Outcome (Bytes × Url)
complete (some pair_id) (some relay) = ok (pair_id, relay)
complete _ _ = err (text "receive incomplete confirmation")

abbrev pub signature_bytes : Option Bytes → Bytes
signature_bytes none = []
signature_bytes (some s) = s

abbrev device_id : Option Bytes → Outcome Bytes
device_id none = panic (text "incorrect length of byte slice representing device ID")
device_id (some i) = ok i

module _ (p : Platform) (rand : Entropy) (c : Client) where
  -- The two ends' codes and the encryption key are sums of what the user typed.
  abbrev pub peer_transfer_code : Bytes
  peer_transfer_code = generate_transfer_code p c.username

  abbrev pub signal_encryption_hash : Bytes
  signal_encryption_hash = generate_signal_encryption_key p c.username

  -- The exchange message of a datagram that was read; the parse error is not looked at.
  unfoldable pub receive_exchange : Read → Action ClientWorld (Option ExchangeBody)
  unfolding client_read
  receive_exchange r = do
    buf ← client_read r
    frame ← lift (p.unpack_frame (take transfer_frame_size buf))
    pure (p.unmarshal_exchange (drop transfer_frame_size buf)).0.exchange_body

  unfoldable pub send_exchange : Bytes → ExchangeBody → Action ClientWorld (Unit {0})
  unfolding client_write
  send_exchange my_transfer_code body = do
    send_payload ← lift (p.marshal_exchange (record { exchange_body = some body }))
    client_write (construct_transfer_packer my_transfer_code peer_transfer_code send_payload)

  unfoldable pub respond : Bytes → Bytes → Bytes → Bytes → Intention → Action ClientWorld (Unit {0})
  unfolding send_exchange
  respond my_transfer_code token nonce pair_key intention = do
    encrypted ← lift (
        construct_encrypted_payload p (generate_encryption_nonce p token nonce)
          signal_encryption_hash
          (p.marshal_response
            (record { pair_key = pair_key; force_relay = none; intention = some intention })))
    send_exchange my_transfer_code (challenge_response token nonce encrypted)

  -- The confirmation's payload, after the checks on the token and the encryption.
  unfoldable pub open_confirmation : Bytes → Option ExchangeBody → Outcome ConfirmPayload
  open_confirmation token body = elim (as_confirm body) [
    | ok confirmation ↦
        if bytes_equal confirmation.token token
        then elim (decrypted (
            exchange_decrypt p (generate_encryption_nonce p confirmation.token confirmation.nonce)
              signal_encryption_hash confirmation.payload)) [
                | ok plain ↦ parse_or_error (p.unmarshal_confirm plain)
                | err e ↦ err e
                | panic e ↦ panic e
              ]
        else err (text "receive unexpected token from peer")
    | err e ↦ err e
    | panic e ↦ panic e
  ]

  -- The connection specific configuration that is handed to the pairing.
  unfoldable pub client_config : Bytes → Bytes → Url → Bytes → PairConnectionConfig
  unfolding set_pair_id_and_key set_rendezvous_server set_tls set_relay_temp set_force_relay
  client_config pair_id pair_key relay peer_device_id =
      let a =
        set_pair_id_and_key new_pair_conn_config_builder pair_id
          (generate_pair_conn_key p pair_key c.access_key) in
      let b = set_rendezvous_server a (text "pipie.mingc.net:7890") in
      let e = set_tls b c.cert in
      let f = if c.force_relay then set_force_relay e else e in
      set_relay_temp f (some relay) (some peer_device_id)

  unfoldable pub accept_confirmation :
      Bytes → ConfirmPayload → Action ClientWorld PairConnectionConfig
  unfolding client_close
  accept_confirmation pair_key server_confirmation = do
    result ← lift (deref server_confirmation.result)
    (if result
        then (do
          (pair_id, relay) ←
              lift (complete server_confirmation.pair_id (parsed_relay p server_confirmation.relay))
          client_close
          peer_device_id ←
              lift
                (device_id (p.device_id_from_bytes (signature_bytes server_confirmation.signature)))
          pure (client_config pair_id pair_key relay peer_device_id))
        else fail (failing_result server_confirmation.message))

  -- From the challenge that was received to the configuration.
  unfoldable pub client_exchange :
      Bytes → Bytes → Read → Intention → Action ClientWorld PairConnectionConfig
  client_exchange my_transfer_code token second intention = do
    nonce ← client_random rand payload_nonce_size
    pair_key ← client_random rand pairing_key_size
    respond my_transfer_code token nonce pair_key intention
    body ← receive_exchange second
    server_confirmation ← lift (open_confirmation token body)
    accept_confirmation pair_key server_confirmation

  unfoldable pub client : Read → Read → Intention → Action ClientWorld PairConnectionConfig
  client first second intention = do
    my_transfer_code ← client_random rand 32
    send_exchange my_transfer_code challenge_request
    body ← receive_exchange first
    token ← lift (as_challenge body)
    client_exchange my_transfer_code token second intention
