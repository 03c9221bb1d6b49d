-- ===== src/Transfer/Layout.antt =====
-- Where the parts of a transfer packet lie.
use pipie.Prelude.{
  ℕ, ◌+◌, ◌≡◌, refl, sym, ◌∙◌, ◌∷◌, ◌++◌, arith, length, take, drop, replicate, length-append,
  length-take, length-drop, length-replicate, take-append_length, drop-append_length, take_all,
  drop_all, append-nil, append_assoc, Bytes, copy,
}
use pipie.Transfer.{transfer_frame_size, transfer_version, construct_transfer_packer}

pub length-copy : (dst src : Bytes) → length (copy dst src) ≡ length dst
unfolding copy
length-copy dst src = omega (
  arith,
  length-append (take (length dst) src) (drop (length src) dst),
  length-take (length dst) src,
  length-drop (length src) dst,
)

-- A source that fills the buffer is copied whole.
pub copy_full : (dst src : Bytes) → length src ≡ length dst → copy dst src ≡ src
unfolding copy
copy_full dst src e =
    rw
      (take_all (length dst) src (omega arith), drop_all (length src) dst (omega arith), append-nil)

length-zeros : (n : ℕ) → length {A = ℕ} (replicate n 0) ≡ n
length-zeros n = length-replicate n 0

pub copy_code : (n : ℕ) (src : Bytes) → length src ≡ n → copy (replicate n 0) src ≡ src
copy_code n src e = copy_full (replicate n 0) src (e ∙ sym (length-zeros n))

-- A packet is 65 bytes longer than its payload, whatever the lengths of the codes.
pub length-construct_transfer_packer :
    (source dest payload : Bytes)
    → length (construct_transfer_packer source dest payload) ≡ transfer_frame_size + length payload
unfolding construct_transfer_packer
length-construct_transfer_packer source dest payload =
    let a = copy (replicate 32 0) source in
    let b = copy (replicate 32 0) dest in
    let c = copy (replicate (length payload) 0) payload in
    omega (
      arith,
      length-append a (b ++ c),
      length-append b c,
      length-copy (replicate 32 0) source,
      length-copy (replicate 32 0) dest,
      length-copy (replicate (length payload) 0) payload,
      length-zeros (length payload),
    )

-- With 32-byte codes, a packet is the version byte, the two codes and the payload.
pub construct_transfer_packer_eq :
    (source dest payload : Bytes)
    → length source ≡ 32
    → length dest ≡ 32
    → construct_transfer_packer source dest payload
      ≡ transfer_version ∷ (source ++ (dest ++ payload))
unfolding construct_transfer_packer
construct_transfer_packer_eq source dest payload hs hd =
    rw (copy_code 32 source hs, copy_code 32 dest hd, copy_code (length payload) payload refl)

-- If both codes have 32 bytes, the first 65 bytes of a packet are the version byte and the two
-- codes, and the rest is the payload.
pub packer_split :
    (source dest payload : Bytes)
    → length source ≡ 32
    → length dest ≡ 32
    → let packet = construct_transfer_packer source dest payload in
      (take transfer_frame_size packet ≡ transfer_version ∷ (source ++ dest))
      × (drop transfer_frame_size packet ≡ payload)
packer_split source dest payload hs hd =
    let header = transfer_version ∷ (source ++ dest) in
    let e : length header ≡ 65 = omega (arith, length-append source dest) in
    rw (construct_transfer_packer_eq source dest payload hs hd, ← append_assoc source dest payload)
      (take-append_length 65 header payload e, drop-append_length 65 header payload e)
