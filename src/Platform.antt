-- ===== src/Platform.antt =====
-- What the program calls and does not implement: hashes, AES-GCM, the protobuf and restruct
-- codecs, URLs and device ids. The theorems that rely on what these do take it as a hypothesis.
pub mod Toy
pub mod Fields
pub mod Codec
use pipie.Prelude.{
  ℕ, ◌≡◌, ◌++◌, ◌∷◌, take, length, replicate, Bool, Option, none, some, Bytes, Outcome, ok,
}
use pipie.Transfer.{TransferFrame, transfer_version}
use pipie.Exchange.{ExchangeBody, ExchangeFrame, ResponsePayload, ConfirmPayload}

-- *url.URL, of which the program only calls String().
pub record Url : Type 0 where
  pub string : Bytes

pub record Platform : Type 0 where
  -- crypto/sha256: the sum of what has been written, 32 bytes.
  pub sha256 : Bytes → Bytes
  -- crypto/sha512
  pub sha512 : Bytes → Bytes
  -- cipher.AEAD of AES-GCM: nonce, key and text.
  pub gcm_seal : Bytes → Bytes → Bytes → Bytes
  pub gcm_open : Bytes → Bytes → Bytes → Option Bytes
  -- restruct.Unpack of a TransferFrame, big endian.
  pub unpack_frame : Bytes → Outcome TransferFrame
  -- proto.Marshal and proto.Unmarshal; Unmarshal leaves what it could read beside its error.
  pub marshal_exchange : ExchangeFrame → Outcome Bytes
  pub unmarshal_exchange : Bytes → ExchangeFrame × Option Bytes
  pub marshal_response : ResponsePayload → Outcome Bytes
  pub unmarshal_response : Bytes → ResponsePayload × Option Bytes
  pub marshal_confirm : ConfirmPayload → Outcome Bytes
  pub unmarshal_confirm : Bytes → ConfirmPayload × Option Bytes
  -- url.Parse
  pub parse_url : Bytes → Outcome Url
  -- syncthingprotocol.DeviceIDFromBytes; `none` is its panic on a wrong length.
  pub device_id_from_bytes : Bytes → Option Bytes
