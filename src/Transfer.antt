-- ===== src/Transfer.antt =====
-- The transfer layer: internal/pipie/struct.go, and constructTransferPacker of
-- internal/pipie/daemon.go. Every datagram is a version byte, the sender's and the receiver's
-- 32-byte codes and an exchange message.
pub mod Layout
use pipie.Prelude.{ℕ, ◌∷◌, ◌++◌, length, replicate, Bytes, copy}

abbrev pub transfer_frame_size : ℕ
transfer_frame_size = 65

abbrev pub transfer_version : ℕ
transfer_version = 1

pub record TransferFrame : Type 0 where
  pub version : ℕ
  pub source : Bytes
  pub destination : Bytes

-- The frame starts as zeros, and `copy` fills its parts.
unfoldable pub construct_transfer_packer : Bytes → Bytes → Bytes → Bytes
construct_transfer_packer source dest payload =
    transfer_version
    ∷ (copy (replicate 32 0) source
        ++ (copy (replicate 32 0) dest ++ copy (replicate (length payload) 0) payload))
