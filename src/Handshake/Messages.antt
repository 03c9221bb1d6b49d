-- ===== src/Handshake/Messages.antt =====
-- The four messages of an exchange and the datagrams that carry them.
use pipie.Prelude.{◌+◌, ◌-◌, ◌++◌, replicate, ◌≤◌, ◌≡◌, none, some, [], length, Bytes, ok}
use pipie.Platform.{Platform}
use pipie.Transfer.{transfer_frame_size, construct_transfer_packer}
use pipie.Exchange.{
  ExchangeBody, Intention, ConfirmPayload, challenge_request, challenge, challenge_response,
  confirm,
}
use pipie.Keys.{generate_encryption_nonce, generate_signal_encryption_key, generate_transfer_code}

-- What the two ends draw, and what they say.
pub record Drawn : Type 0 where
  pub code : Bytes
  pub token : Bytes
  pub nonce : Bytes
  pub pair_key : Bytes
  pub reply_nonce : Bytes

-- The parse of a message in the client's buffer, which zeros fill up, gives the message, with or
-- without an error.
abbrev pub ParsesPadded : Platform → Bytes → ExchangeBody → Type 0
ParsesPadded p bytes body =
    (p.unmarshal_exchange (bytes ++ replicate (1500 - (transfer_frame_size + length bytes)) 0)).0
    ≡ record { exchange_body = some body }

module _ (p : Platform) (username : Bytes) where
  abbrev pub sealed : Bytes → Bytes → Bytes → Bytes
  sealed token nonce plain =
      p.gcm_seal (generate_encryption_nonce p token nonce)
        (generate_signal_encryption_key p username) plain

  -- The encodings of the messages: each of them has one, each datagram fits into the receive buffer
  -- of 1500 bytes, and the confirmation is no shorter than the challenge. The client parses its whole
  -- buffer and does not look at the parser's error: `challenge_parses` and `confirm_parses` say that
  -- the parser has found the message when it meets the zeros behind it.
  pub record Messages (drawn : Drawn) (intention : Intention) (accepted : ConfirmPayload)
      : Type 0 where
    pub request : Bytes
    pub challenge_bytes : Bytes
    pub response_plain : Bytes
    pub response_bytes : Bytes
    pub confirm_plain : Bytes
    pub confirm_bytes : Bytes
    pub requests :
        p.marshal_exchange (record { exchange_body = some challenge_request }) ≡ ok request
    pub challenges :
        p.marshal_exchange (record { exchange_body = some (challenge drawn.token []) })
        ≡ ok challenge_bytes
    pub response_writes :
        p.marshal_response
          (record { pair_key = drawn.pair_key; force_relay = none; intention = some intention })
        ≡ ok response_plain
    pub responds :
        p.marshal_exchange (record {
          exchange_body = some (
              challenge_response drawn.token drawn.nonce
                (sealed drawn.token drawn.nonce response_plain));
        })
        ≡ ok response_bytes
    pub confirm_writes : p.marshal_confirm accepted ≡ ok confirm_plain
    pub confirms :
        p.marshal_exchange (record {
          exchange_body = some (
              confirm drawn.token drawn.reply_nonce
                (sealed drawn.token drawn.reply_nonce confirm_plain));
        })
        ≡ ok confirm_bytes
    pub longer : length challenge_bytes ≤ length confirm_bytes
    pub request_fits : transfer_frame_size + length request ≤ 1500
    pub response_fits : transfer_frame_size + length response_bytes ≤ 1500
    pub confirm_fits : transfer_frame_size + length confirm_bytes ≤ 1500
    pub challenge_parses : ParsesPadded p challenge_bytes (challenge drawn.token [])
    pub confirm_parses :
        ParsesPadded p confirm_bytes (
          confirm drawn.token drawn.reply_nonce
            (sealed drawn.token drawn.reply_nonce confirm_plain))

  module _ {drawn : Drawn} {intention : Intention} {accepted : ConfirmPayload}
      (m : Messages drawn intention accepted) where
    abbrev pub request_packet : Bytes
    request_packet =
        construct_transfer_packer drawn.code (generate_transfer_code p username) m.request

    abbrev pub challenge_packet : Bytes
    challenge_packet =
        construct_transfer_packer (generate_transfer_code p username) drawn.code m.challenge_bytes

    abbrev pub response_packet : Bytes
    response_packet =
        construct_transfer_packer drawn.code (generate_transfer_code p username) m.response_bytes

    abbrev pub confirm_packet : Bytes
    confirm_packet =
        construct_transfer_packer (generate_transfer_code p username) drawn.code m.confirm_bytes
