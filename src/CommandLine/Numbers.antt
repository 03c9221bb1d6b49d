-- ===== src/CommandLine/Numbers.antt =====
-- strconv.ParseInt with base 10 and 32 bits, as TestMain of cmd/pipie/main.go calls it, and the
-- conversion to uint16 that follows.
use pipie.Prelude.{
  ℕ, zero, suc, ◌+◌, ◌-◌, ◌*◌, ◌%◌, ◌^◌, Bool, true, false, ◌&&◌, ◌==◌, Option, none, some, [], ◌∷◌,
  Bytes, text, ltb, leb, if◌then◌else◌,
}

pub data ℤ : Type 0 where
  pos : ℕ → ℤ
  negsuc : ℕ → ℤ

-- `-n`
abbrev pub neg : ℕ → ℤ
neg zero = pos 0
neg (suc n) = negsuc n

-- What ParseUint finds. It stops at the first digit that takes the number out of 32 bits.
pub data Unsigned : Type 0 where
  number : ℕ → Unsigned
  out_of_range : Unsigned
  malformed : Unsigned

abbrev pub is_digit : ℕ → Bool
is_digit c = leb b'0' c && leb c b'9'

unfoldable pub scan_digits : ℕ → Bytes → Unsigned
scan_digits n [] = number n
scan_digits n (c ∷ s) =
    let n1 = n * 10 + (c - b'0') in
    let rest = scan_digits n1 s in
    if is_digit c then if ltb (2 ^ 32 - 1) n1 then out_of_range else rest else malformed

unfoldable pub parse_uint : Bytes → Unsigned
unfolding scan_digits
parse_uint [] = malformed
parse_uint (c ∷ s) = scan_digits 0 (c ∷ s)

pub record ParsedInt : Type 0 where
  pub value : ℤ
  pub error : Option Bytes

abbrev pub bounded : Bool → ℕ → ParsedInt
bounded false n =
    if leb (2 ^ 31) n
    then (record { value = pos (2 ^ 31 - 1); error = some (text "value out of range") })
    else (record { value = pos n; error = none })
bounded true n =
    if ltb (2 ^ 31) n
    then (record { value = neg (2 ^ 31); error = some (text "value out of range") })
    else (record { value = neg n; error = none })

-- An unsigned number out of range counts as the largest.
abbrev pub signed : Bool → Unsigned → ParsedInt
signed negative (number n) = bounded negative n
signed negative out_of_range = bounded negative (2 ^ 32 - 1)
signed negative malformed = record { value = pos 0; error = some (text "invalid syntax") }

unfoldable pub parse_int : Bytes → ParsedInt
unfolding parse_uint
parse_int [] = record { value = pos 0; error = some (text "invalid syntax") }
parse_int (c ∷ s) =
    if c == b'+'
    then signed false (parse_uint s)
    else if c == b'-'
    then signed true (parse_uint s)
    else signed false (parse_uint (c ∷ s))

-- uint16(i) of an int64
unfoldable pub uint16_int : ℤ → ℕ
uint16_int (pos n) = n % 65536
uint16_int (negsuc n) = 65535 - n % 65536
