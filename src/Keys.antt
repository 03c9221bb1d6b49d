-- ===== src/Keys.antt =====
-- Key derivation and payload encryption: internal/pipie/util.go, and the helpers at the end of
-- internal/pipie/daemon.go. A hash that is written to twice sums the concatenation.
use pipie.Prelude.{
  ℕ, Bool, ◌==◌, if◌then◌else◌, ◌||◌, none, some, [], ◌∷◌, ◌++◌, take, length, Bytes, text, Outcome,
  ok, err, panic, ◌/◌, ◌%◌, ltb, ◌+◌,
}
use pipie.Platform.{Platform}

abbrev pub challenge_token_size : ℕ
challenge_token_size = 32

abbrev pub pair_id_length : ℕ
pair_id_length = 32

abbrev pub payload_nonce_size : ℕ
payload_nonce_size = 12

abbrev pub pairing_key_size : ℕ
pairing_key_size = 32

-- encoding/hex: two lower-case digits for each byte.
abbrev hex_digit : ℕ → ℕ
hex_digit d = if ltb d 10 then b'0' + d else b'W' + d

unfoldable pub hex_encode : Bytes → Bytes
hex_encode [] = []
hex_encode (b ∷ bs) = hex_digit (b / 16) ∷ hex_digit (b % 16) ∷ hex_encode bs

abbrev aes_key_ok : Bytes → Bool
aes_key_ok key = length key == 16 || (length key == 24 || length key == 32)

module _ (p : Platform) where
  open p use {sha256, gcm_seal, gcm_open}

  unfoldable pub generate_pair_conn_key : Bytes → Bytes → Bytes
  generate_pair_conn_key pair_key access_key = sha256 (pair_key ++ access_key)

  unfoldable pub generate_transfer_code : Bytes → Bytes
  generate_transfer_code username = sha256 username

  unfoldable pub generate_signal_encryption_key : Bytes → Bytes
  generate_signal_encryption_key username = sha256 (username ++ text "username")

  unfoldable pub generate_encryption_nonce : Bytes → Bytes → Bytes
  generate_encryption_nonce token nonce = take 12 (sha256 (token ++ nonce))

  -- aes.NewCipher refuses a key that is not of 16, 24 or 32 bytes; NewGCM accepts every AES block.
  unfoldable pub exchange_decrypt : Bytes → Bytes → Bytes → Outcome Bytes
  exchange_decrypt nonce key ciphertext =
      if aes_key_ok key
      then elim (gcm_open nonce key ciphertext) [
        | none ↦ err (text "cipher: message authentication failed")
        | some plain ↦ ok plain
      ]
      else err (text "crypto/aes: invalid key size")

  unfoldable pub exchange_encrypt : Bytes → Bytes → Bytes → Outcome Bytes
  exchange_encrypt nonce key plaintext =
      if aes_key_ok key
      then ok (gcm_seal nonce key plaintext)
      else panic (text "crypto/aes: invalid key size")

  -- The caller hands the message over as what proto.Marshal makes of it.
  unfoldable pub construct_encrypted_payload : Bytes → Bytes → Outcome Bytes → Outcome Bytes
  unfolding exchange_encrypt
  construct_encrypted_payload nonce key (ok plain_payload) =
      exchange_encrypt nonce key plain_payload
  construct_encrypted_payload nonce key (err e) = panic e
  construct_encrypted_payload nonce key (panic e) = panic e
