-- ===== src/Handshake/Buffer.antt =====
-- The client's receive buffer: zeros behind the datagram that was read last, as long as no datagram
-- is shorter than the one before it.
use pipie.Prelude.{
  ℕ, zero, suc, ◌-◌, ◌≤◌, ◌≡◌, refl, ap, ◌∙◌, [], ◌∷◌, ◌++◌, take, drop, length, replicate,
  length-append, length-replicate, take_all, append_assoc, take-append_length, drop-append_length,
  Bytes, copy, arith,
}
use pipie.Transfer.{transfer_frame_size, transfer_version, construct_transfer_packer}
use pipie.Transfer.Layout.{construct_transfer_packer_eq}

abbrev zeros : ℕ → Bytes
zeros n = replicate n 0

drop-zeros : (k n : ℕ) → drop k (zeros n) ≡ zeros (n - k)
drop-zeros zero n = let e : n ≡ n - 0 = omega arith in ap zeros e
drop-zeros (suc k) zero = let e : 0 ≡ 0 - suc k = omega arith in ap zeros e
drop-zeros (suc k) (suc n) = drop-zeros k n ∙ ap zeros (omega arith)

drop-append_over :
    (k : ℕ) (xs ys : Bytes) → length xs ≤ k → drop k (xs ++ ys) ≡ drop (k - length xs) ys
drop-append_over k [] ys h = ap (λ m. drop m ys) (omega arith)
drop-append_over zero (x ∷ xs) ys h = absurd (omega arith)
drop-append_over (suc k) (x ∷ xs) ys h =
    drop-append_over k xs ys (omega arith) ∙ ap (λ m. drop m ys) (omega arith)

-- A buffer of `n` bytes after it was filled by `b`.
abbrev pub filled : ℕ → Bytes → Bytes
filled n b = b ++ replicate (n - length b) 0

pub filled_none : (n : ℕ) → replicate n 0 ≡ filled n []
filled_none n = ap zeros (omega arith)

length-filled : (n : ℕ) (a : Bytes) → length a ≤ n → length (filled n a) ≡ n
length-filled n a h =
    omega (arith, length-append a (zeros (n - length a)), length-replicate {A = ℕ} (n - length a) 0)

drop-filled : (n k : ℕ) (a : Bytes) → length a ≤ k → k ≤ n → drop k (filled n a) ≡ zeros (n - k)
drop-filled n k a h l =
    drop-append_over k a (zeros (n - length a)) h
    ∙ drop-zeros (k - length a) (n - length a)
    ∙ ap zeros (omega arith)

pub copy-filled :
    (n : ℕ) (a b : Bytes) → length a ≤ length b → length b ≤ n → copy (filled n a) b ≡ filled n b
unfolding copy
copy-filled n a b h l = rw (
  take_all (length (filled n a)) b (omega (arith, length-filled n a (omega arith))),
  drop-filled n (length b) a h l,
)

-- The two parts of a filled buffer, as the client cuts it.
pub filled_split :
    (n : ℕ) (source dest payload : Bytes)
    → length source ≡ 32
    → length dest ≡ 32
    → let packet = construct_transfer_packer source dest payload in
      (take transfer_frame_size (filled n packet) ≡ transfer_version ∷ (source ++ dest))
      × (drop transfer_frame_size (filled n packet) ≡ payload ++ replicate (n - length packet) 0)
filled_split n source dest payload hs hd =
    let header = transfer_version ∷ (source ++ dest) in
    let e : length header ≡ 65 = omega (arith, length-append source dest) in
    let packet = construct_transfer_packer source dest payload in
    let z = zeros (n - length packet) in
    let rest = payload ++ z in
    let whole : packet ++ zeros (n - length packet) ≡ header ++ rest =
      ap (λ b. b ++ zeros (n - length packet))
        (construct_transfer_packer_eq source dest payload hs hd)
      ∙ rw
          (
            append_assoc source (dest ++ payload) z,
            append_assoc dest payload z,
            append_assoc source dest rest,
          )
          refl in
    (
      ap (take 65) whole ∙ take-append_length 65 header rest e,
      ap (drop 65) whole ∙ drop-append_length 65 header rest e,
    )
