-- ===== src/Pair/Identity.antt =====
-- tlsIdentityCheck of lib/pairconnect/pair_conn.go: both ends prove over the TLS connection that
-- they hold the same key. The connection is any reader `read`, which answers a buffer's room with
-- bytes and an error.
use pipie.Prelude.{
  ℕ, zero, suc, ◌-◌, ◌==◌, Option, none, some, [], ◌++◌, length, Bytes, text, bytes_equal, Outcome,
  ok, err, if◌then◌else◌,
}
use pipie.Platform.{Platform}

abbrev pub handshake_magic : Bytes
handshake_magic = text "magic_pipie"

-- hash.Size() of SHA-512
abbrev pub identity_key_size : ℕ
identity_key_size = 64

-- What a `Read` returns.
pub record Reply : Type 0 where
  pub bytes : Bytes
  pub error : Option Bytes

-- How filling a buffer ends: the bytes and the reader after them, an error, or the rounds ran out.
pub data Filled (C : Type 0) : Type 0 where
  filled : Bytes → C → Filled C
  broken : Bytes → Filled C
  starved : Filled C

module _ {C : Type 0} (read : C → ℕ → Reply × C) where
  -- `room` is `len(buf) - bufC` and `got` is `buf[:bufC]`; the test for the end follows the read.
  unfoldable pub fill : ℕ → C → ℕ → Bytes → Filled C
  fill zero c room got = starved
  fill (suc f) c room got =
      let (reply, c') = read c room in
      let left = room - length reply.bytes in
      let more = fill f c' left (got ++ reply.bytes) in
      elim reply.error [
        | some e ↦ broken e
        | none ↦ if left == 0 then filled (got ++ reply.bytes) c' else more
      ]

  -- As many rounds as there are bytes.
  unfoldable pub read_full : C → ℕ → Filled C
  unfolding fill
  read_full c size = fill size c size []

  -- What is left after the magic, and the comparison with the peer's identity key.
  unfoldable pub check_key : Bytes → C → Outcome (Unit {0})
  check_key peer_identity_key c = elim (read_full c identity_key_size) [
    | filled buf c' ↦
        if bytes_equal buf peer_identity_key then ok tt else err (text "identity mismatch")
    | broken e ↦ err e
    | starved ↦ err (text "no progress")
  ]

  unfoldable pub check_magic : Bytes → C → Outcome (Unit {0})
  check_magic peer_identity_key c = elim (read_full c (length handshake_magic)) [
    | filled buf c' ↦
        if bytes_equal buf handshake_magic
        then check_key peer_identity_key c'
        else err (text "magic mismatch")
    | broken e ↦ err e
    | starved ↦ err (text "no progress")
  ]

  -- The error of the first write is overwritten by that of the second. The certificates are those
  -- of the two ends; what this end writes is `identity_sent`.
  unfoldable pub tls_identity_check :
      Platform → Bytes → Bytes → Option Bytes → C → Outcome (Unit {0})
  tls_identity_check p peer_cert key (some e) c = err e
  tls_identity_check p peer_cert key none c = check_magic (p.sha512 (peer_cert ++ key)) c

-- `magic` and `myIdentityKey`, one after the other.
unfoldable pub identity_sent : Platform → Bytes → Bytes → Bytes
identity_sent p my_cert key = handshake_magic ++ p.sha512 (my_cert ++ key)
