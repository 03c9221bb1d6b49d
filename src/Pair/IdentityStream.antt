-- ===== src/Pair/IdentityStream.antt =====
-- The identity check against the stream that the peer sends, however it is cut into reads.
use mathlib.Core.Path.{ap₂}
use pipie.Prelude.{
  ℕ, zero, suc, ◌+◌, ◌-◌, ◌≤◌, ◌<◌, ◌==◌, ◌≡◌, ◌↔◌, refl, sym, ap, ◌∙◌, inl, inr, none, [], ◌++◌,
  length, length-append, take, drop, append_assoc, Bytes, bytes_equal_iff, arith, ok, Bool-cases,
  take-append_length, drop-append_length,
}
use pipie.Platform.{Platform}
use pipie.Pair.Identity.{
  handshake_magic, Reply, Filled, filled, fill, read_full, check_key, check_magic,
  tls_identity_check, identity_sent,
}

-- What a connection's Read is documented to do while the peer's stream lasts: it returns some of
-- the stream's next bytes, at least one if there is room, at most what there is room for.
pub record Streams {C : Type 0} (read : C → ℕ → Reply × C) (stream : C → Bytes) : Type 0 where
  pub next :
      (c : C) (room : ℕ)
      → (read c room).0.error ≡ none
      → stream c ≡ (read c room).0.bytes ++ stream (read c room).1
  pub fits : (c : C) (room : ℕ) → length (read c room).0.bytes ≤ room
  pub moves :
      (c : C) (room : ℕ)
      → 0 < room
      → (read c room).0.error ≡ none
      → 0 < length (read c room).0.bytes
  pub lasts : (c : C) (room : ℕ) → room ≤ length (stream c) → (read c room).0.error ≡ none

module _ {C : Type 0} (read : C → ℕ → Reply × C) (stream : C → Bytes)
    (law : Streams read stream) where
  -- A buffer that the stream can fill is filled with the stream's next bytes.
  record Fills (c : C) (room : ℕ) (got : Bytes) (r : Filled C) : Type 0 where
    bytes : Bytes
    after : C
    is_filled : r ≡ filled (got ++ bytes) after
    size : length bytes ≡ room
    next : stream c ≡ bytes ++ stream after

  fill-Fills :
      (f : ℕ) (c : C) (room : ℕ) (got : Bytes)
      → 0 < room
      → room ≤ f
      → room ≤ length (stream c)
      → Fills c room got (fill read f c room got)
  unfolding fill
  fill-Fills zero c room got pos enough long = absurd (omega arith)
  fill-Fills (suc f) c room got pos enough long =
      let reply = (read c room).0 in
      let c' = (read c room).1 in
      let fine = law.lasts c room long in
      let next = law.next c room fine in
      let moves = law.moves c room pos fine in
      let fits = law.fits c room in
      let left = room - length reply.bytes in
      elim (Bool-cases (left == 0)) [
        | inl full ↦
            rw (fine, fill)
              (rw full (record {
                bytes = reply.bytes;
                after = c';
                is_filled = refl;
                size = ground arith;
                next = next;
              }))
        | inr more ↦
            let grown : length (stream c) ≡ length reply.bytes + length (stream c') =
              ap length next ∙ length-append reply.bytes (stream c') in
            let ih =
              fill-Fills f c' left (got ++ reply.bytes) (ground arith) (omega arith)
                (omega arith) in
            rw (fine, fill)
              (rw more (record {
                bytes = reply.bytes ++ ih.bytes;
                after = ih.after;
                is_filled =
                    ih.is_filled
                    ∙ ap (λ b. filled b ih.after) (append_assoc got reply.bytes ih.bytes);
                size = omega (arith, length-append reply.bytes ih.bytes, ih.size);
                next =
                    next
                    ∙ ap (λ b. reply.bytes ++ b) ih.next
                    ∙ sym (append_assoc reply.bytes ih.bytes _);
              }))
      ]

  read_full-Fills :
      (c : C) (size : ℕ)
      → 0 < size
      → size ≤ length (stream c)
      → Fills c size [] (read_full read c size)
  unfolding read_full
  read_full-Fills c size pos long = fill-Fills size c size [] pos (omega arith) long

  -- The two buffers, cut off the stream.
  record Cut (c : C) : Type 0 where
    magic : Bytes
    key : Bytes
    middle : C
    after : C
    first : read_full read c 11 ≡ filled magic middle
    second : read_full read middle 64 ≡ filled key after
    magic_size : length magic ≡ 11
    key_size : length key ≡ 64
    whole : stream c ≡ (magic ++ key) ++ stream after

  cut : (c : C) → 75 ≤ length (stream c) → Cut c
  cut c long =
      let a = read_full-Fills c 11 (omega arith) (omega arith) in
      let grown : length (stream c) ≡ length a.bytes + length (stream a.after) =
        ap length a.next ∙ length-append a.bytes (stream a.after) in
      let b = read_full-Fills a.after 64 (omega arith) (omega (arith, a.size)) in
      record {
        magic = a.bytes;
        key = b.bytes;
        middle = a.after;
        after = b.after;
        first = a.is_filled;
        second = b.is_filled;
        magic_size = a.size;
        key_size = b.size;
        whole = a.next ∙ ap (λ t. a.bytes ++ t) b.next ∙ sym (append_assoc a.bytes b.bytes _);
      }

  check_magic-Cut :
      (c : C) (peer_identity_key : Bytes) (k : Cut c)
      → (check_magic read peer_identity_key c ≡ ok tt)
        ↔ ((k.magic ≡ handshake_magic) × (k.key ≡ peer_identity_key))
  unfolding check_magic check_key
  check_magic-Cut c peer_identity_key k =
      rw (k.first, check_magic)
        (rw (k.second, check_key)
          (
            λ e. ground (
              arith,
              bytes_equal_iff k.magic handshake_magic,
              bytes_equal_iff k.key peer_identity_key,
            ),
            λ e. ground (
              arith,
              bytes_equal_iff k.magic handshake_magic,
              bytes_equal_iff k.key peer_identity_key,
            ),
          ))

  append_split : (a b x y : Bytes) → length a ≡ length x → (a ++ b ≡ x ++ y) → (a ≡ x) × (b ≡ y)
  append_split a b x y e q = (
    sym (take-append_length (length a) a b refl)
        ∙ ap (take (length a)) q
        ∙ take-append_length (length a) x y (sym e),
    sym (drop-append_length (length a) a b refl)
        ∙ ap (drop (length a)) q
        ∙ drop-append_length (length a) x y (sym e),
  )

  -- Over a stream of at least 75 bytes, however the connection cuts it into reads,
  -- the check passes exactly if the stream begins with the magic string
  -- followed by SHA-512 of the peer's certificate and the shared key.
  tls_identity_check_iff :
      (p : Platform) (peer_cert key : Bytes) (c : C)
      → 75 ≤ length (stream c)
      → (tls_identity_check read p peer_cert key none c ≡ ok tt)
        ↔ (take 75 (stream c) ≡ handshake_magic ++ p.sha512 (peer_cert ++ key))
  unfolding tls_identity_check
  tls_identity_check_iff p peer_cert key c long =
      let k = cut c long in
      let both = check_magic-Cut c (p.sha512 (peer_cert ++ key)) k in
      let size : length (k.magic ++ k.key) ≡ 75 =
        omega (arith, length-append k.magic k.key, k.magic_size, k.key_size) in
      let front : take 75 (stream c) ≡ k.magic ++ k.key =
        ap (take 75) k.whole ∙ take-append_length 75 (k.magic ++ k.key) (stream k.after) size in
      (
        λ e. front ∙ ap₂ ◌++◌ (both.0 e).0 (both.0 e).1,
        λ e. both.1 (
            append_split k.magic k.key handshake_magic (p.sha512 (peer_cert ++ key)) k.magic_size
              (sym front ∙ e)),
      )

  -- Over a connection on which the peer, with the certificate `peer_cert`, sent its part of the
  -- check first: if SHA-512 sums have 64 bytes and tell the two keys apart after that certificate,
  -- this end's check passes exactly if the two ends hold the same key.
  pub tls_identity_check-same_key :
      (p : Platform) (peer_cert peer_key key rest : Bytes) (c : C)
      → ((b : Bytes) → length (p.sha512 b) ≡ 64)
      → (p.sha512 (peer_cert ++ peer_key) ≡ p.sha512 (peer_cert ++ key) → peer_key ≡ key)
      → stream c ≡ identity_sent p peer_cert peer_key ++ rest
      → (tls_identity_check read p peer_cert key none c ≡ ok tt) ↔ (peer_key ≡ key)
  unfolding identity_sent
  tls_identity_check-same_key p peer_cert peer_key key rest c size apart sent =
      let sum = p.sha512 (peer_cert ++ peer_key) in
      let header : length (handshake_magic ++ sum) ≡ 75 =
        omega (arith, length-append handshake_magic sum, size (peer_cert ++ peer_key)) in
      let long : 75 ≤ length (stream c) =
        omega (arith, ap length sent, length-append (handshake_magic ++ sum) rest, header) in
      let front : take 75 (stream c) ≡ handshake_magic ++ sum =
        ap (take 75) sent ∙ take-append_length 75 (handshake_magic ++ sum) rest header in
      let whole = tls_identity_check_iff p peer_cert key c long in
      (
        λ e.
            apart
              (append_split handshake_magic sum handshake_magic (p.sha512 (peer_cert ++ key)) refl
                (sym front ∙ whole.0 e)).1,
        λ e. whole.1 (front ∙ ap (λ k. handshake_magic ++ p.sha512 (peer_cert ++ k)) e),
      )
