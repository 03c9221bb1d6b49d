-- ===== src/Handshake/Laws.antt =====
-- What the exchange of a client and a daemon relies on of third-party code: hashes have their
-- length, AES-GCM opens what it sealed, a codec reads what it wrote, a URL is
-- read from its text, and 32 bytes make a device id.
use pipie.Prelude.{ℕ, ◌≡◌, ◌++◌, ◌∷◌, length, none, some, Bytes, ok}
use pipie.Platform.{Platform, Url}
use pipie.Transfer.{transfer_version}
use pipie.Exchange.{ExchangeFrame, ResponsePayload, ConfirmPayload}
use pipie.Daemon.State.{Entropy}

pub record PlatformLaws (p : Platform) : Type 0 where
  pub sum_size : (b : Bytes) → length (p.sha256 b) ≡ 32
  pub opens :
      (nonce key plain : Bytes) → p.gcm_open nonce key (p.gcm_seal nonce key plain) ≡ some plain
  pub unpacks :
      (source dest : Bytes)
      → length source ≡ 32
      → length dest ≡ 32
      → p.unpack_frame (transfer_version ∷ (source ++ dest))
        ≡ ok (record { version = transfer_version; source = source; destination = dest })
  pub exchange_read :
      (f : ExchangeFrame) (b : Bytes)
      → p.marshal_exchange f ≡ ok b
      → p.unmarshal_exchange b ≡ (f, none)
  pub response_read :
      (r : ResponsePayload) (b : Bytes)
      → p.marshal_response r ≡ ok b
      → p.unmarshal_response b ≡ (r, none)
  pub confirm_read :
      (r : ConfirmPayload) (b : Bytes)
      → p.marshal_confirm r ≡ ok b
      → p.unmarshal_confirm b ≡ (r, none)
  pub device_ids : (b : Bytes) → length b ≡ 32 → (id : Bytes) × (p.device_id_from_bytes b ≡ some id)
  pub url_again : (b : Bytes) (u : Url) → p.parse_url b ≡ ok u → p.parse_url u.string ≡ ok u

-- A source of random bytes that always delivers.
pub record Steady (rand : Entropy) : Type 0 where
  pub draw : ℕ → ℕ → Bytes
  pub gives : (n size : ℕ) → rand n size ≡ some (draw n size)
  pub sized : (n size : ℕ) → length (draw n size) ≡ size
