-- ===== src/CommandLine/Decimal.antt =====
-- ParseInt against what a list of digits stands for, and the decimal notation of a number.
use pipie.Prelude.{
  ℕ, zero, suc, ◌+◌, ◌-◌, ◌*◌, ◌/◌, ◌%◌, ◌^◌, ◌≤◌, ◌<◌, min, ◌≡◌, refl, ap, ◌∙◌, true, false, ◌==◌,
  [], ◌∷◌, ◌++◌, Bytes, ltb, All, All-append, length, length-append, arith, inl, inr, Bool-cases,
  if◌then◌else◌,
}
use pipie.CommandLine.{port_of}
use pipie.CommandLine.Numbers.{
  pos, neg, Unsigned, number, out_of_range, is_digit, scan_digits, parse_uint, parse_int, signed,
  uint16_int,
}

abbrev pub IsDigit : ℕ → Type 0
IsDigit c = is_digit c ≡ true

-- The number that digits stand for, behind those that stand for `n`.
unfoldable pub horner : ℕ → Bytes → ℕ
horner n [] = n
horner n (c ∷ s) = horner (n * 10 + (c - b'0')) s

horner-grows : (n : ℕ) (s : Bytes) → n ≤ horner n s
unfolding horner
horner-grows n [] = omega arith
horner-grows n (c ∷ s) = omega (arith, horner-grows (n * 10 + (c - b'0')) s)

abbrev capped : ℕ → Unsigned
capped n = if ltb (2 ^ 32 - 1) n then out_of_range else number n

scan_digits-horner :
    (n : ℕ) (s : Bytes) → n < 2 ^ 32 → All IsDigit s → scan_digits n s ≡ capped (horner n s)
unfolding scan_digits horner
scan_digits-horner n [] h d = ground arith
scan_digits-horner n (c ∷ s) h (dc, ds) =
    elim (Bool-cases (ltb (2 ^ 32 - 1) (n * 10 + (c - b'0')))) [
      | inl over ↦ ground (arith, horner-grows (n * 10 + (c - b'0')) s)
      | inr under ↦ ground (arith, scan_digits-horner (n * 10 + (c - b'0')) s (ground arith) ds)
    ]

signed-capped : (n : ℕ) → (signed false (capped n)).value ≡ pos (min n (2 ^ 31 - 1))
signed-capped n = ground arith

signed-capped-neg : (n : ℕ) → (signed true (capped n)).value ≡ neg (min n (2 ^ 31))
signed-capped-neg n = ground arith

digit_not_sign : (c : ℕ) → IsDigit c → ((c == b'+') ≡ false) × ((c == b'-') ≡ false)
digit_not_sign c d = ground arith

parse_uint-horner :
    (c : ℕ) (s : Bytes) → All IsDigit (c ∷ s) → parse_uint (c ∷ s) ≡ capped (horner 0 (c ∷ s))
unfolding parse_uint
parse_uint-horner c s d = scan_digits-horner 0 (c ∷ s) (omega arith) d

-- One or more digits are cut off at the ends of the 32-bit integers.
parse_int-horner :
    (c : ℕ) (s : Bytes)
    → All IsDigit (c ∷ s)
    → let n = horner 0 (c ∷ s) in
      ((parse_int (c ∷ s)).value ≡ pos (min n (2 ^ 31 - 1)))
      × ((parse_int (b'+' ∷ (c ∷ s))).value ≡ pos (min n (2 ^ 31 - 1)))
      × ((parse_int (b'-' ∷ (c ∷ s))).value ≡ neg (min n (2 ^ 31)))
unfolding parse_int
parse_int-horner c s d =
    let n = horner 0 (c ∷ s) in
    let q = digit_not_sign c d.0 in
    (
      rw (q.0, q.1, parse_uint-horner c s d) (signed-capped n),
      rw (parse_uint-horner c s d) (signed-capped n),
      rw (parse_uint-horner c s d) (signed-capped-neg n),
    )

uint16_int-neg : (n : ℕ) → uint16_int (neg n) ≡ (2 ^ 16 - n % 2 ^ 16) % 2 ^ 16
unfolding uint16_int
uint16_int-neg zero = refl
uint16_int-neg (suc n) = omega arith

-- A port that is written as one or more digits, with no sign or with `+`, is the remainder of the
-- number by 2^16, where a number above 2^31 - 1 counts as 2^31 - 1; with `-` it is the remainder of
-- the negated number, where a number above 2^31 counts as 2^31. No such port is refused.
pub port_of-horner :
    (c : ℕ) (s : Bytes)
    → All IsDigit (c ∷ s)
    → let n = horner 0 (c ∷ s) in
      (port_of (c ∷ s) ≡ min n (2 ^ 31 - 1) % 2 ^ 16)
      × (port_of (b'+' ∷ (c ∷ s)) ≡ min n (2 ^ 31 - 1) % 2 ^ 16)
      × (port_of (b'-' ∷ (c ∷ s)) ≡ (2 ^ 16 - min n (2 ^ 31) % 2 ^ 16) % 2 ^ 16)
unfolding port_of uint16_int
port_of-horner c s d =
    let v = parse_int-horner c s d in
    (
      ap uint16_int v.0,
      ap uint16_int v.1,
      ap uint16_int v.2 ∙ uint16_int-neg (min (horner 0 (c ∷ s)) (2 ^ 31)),
    )

-- The decimal notation; `fuel` is at least the number.
decimal_on : ℕ → ℕ → Bytes
decimal_on zero n = b'0' ∷ []
decimal_on (suc fuel) n =
    let tens = decimal_on fuel (n / 10) in
    if ltb n 10 then (b'0' + n) ∷ [] else tens ++ ((b'0' + n % 10) ∷ [])

unfoldable pub decimal : ℕ → Bytes
unfolding decimal_on
decimal n = decimal_on n n

horner-append : (n : ℕ) (s t : Bytes) → horner n (s ++ t) ≡ horner (horner n s) t
unfolding horner
horner-append n [] t = refl
horner-append n (c ∷ s) t = horner-append (n * 10 + (c - b'0')) s t

record Notation (n : ℕ) (s : Bytes) : Type 0 where
  digits : All IsDigit s
  value : horner 0 s ≡ n
  some_digit : 1 ≤ length s

last_digit : (n : ℕ) (s : Bytes) → Notation (n / 10) s → Notation n (s ++ ((b'0' + n % 10) ∷ []))
unfolding horner
last_digit n s v = record {
  digits = All-append IsDigit s _ v.digits (ground arith, tt);
  value = horner-append 0 s _ ∙ omega (arith, v.value);
  some_digit = omega (arith, length-append s ((b'0' + n % 10) ∷ []));
}

decimal_on-Notation : (fuel n : ℕ) → n ≤ fuel → Notation n (decimal_on fuel n)
unfolding decimal_on horner
decimal_on-Notation zero n h = record {
  digits = (refl, tt);
  value = omega arith;
  some_digit = omega arith;
}
decimal_on-Notation (suc fuel) n h = elim (Bool-cases (ltb n 10)) [
  | inl e ↦
      rw e (record { digits = (ground arith, tt); value = omega arith; some_digit = omega arith })
  | inr e ↦
      rw e
        (last_digit n (decimal_on fuel (n / 10)) (decimal_on-Notation fuel (n / 10) (ground arith)))
]

-- A number below 2^31 is read back from its decimal notation.
Notation-parse_int : (n : ℕ) (s : Bytes) → n < 2 ^ 31 → Notation n s → (parse_int s).value ≡ pos n
Notation-parse_int n [] h v = absurd (omega (arith, v.some_digit))
Notation-parse_int n (c ∷ s) h v =
    (parse_int-horner c s v.digits).0 ∙ ap pos (omega (arith, v.value))

-- A port is read back from its decimal notation, which holds digits only.
pub port_of-decimal : (n : ℕ) → n < 2 ^ 16 → port_of (decimal n) ≡ n
unfolding decimal port_of uint16_int
port_of-decimal n h =
    let v = decimal_on-Notation n n (omega arith) in
    rw (Notation-parse_int n (decimal_on n n) (omega arith) v) omega arith

pub decimal-digits : (n : ℕ) → All IsDigit (decimal n)
unfolding decimal
decimal-digits n = (decimal_on-Notation n n (omega arith)).digits
