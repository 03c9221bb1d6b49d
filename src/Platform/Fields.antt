-- ===== src/Platform/Fields.antt =====
-- The fields of a codec of a toy kind: each is preceded by its length, and an optional one by one
-- more.
use pipie.Prelude.{
  ℕ, zero, suc, ◌≡◌, refl, Bool, true, false, Option, none, some, [], ◌∷◌, ◌++◌, take, drop, length,
  take-append_length, drop-append_length, Bytes,
}

-- A value in front of the rest, and what is read of it.
abbrev pub field : Bytes → Bytes → Bytes
field b rest = length b ∷ (b ++ rest)

abbrev pub read_field : Bytes → Bytes × Bytes
read_field [] = ([], [])
read_field (n ∷ rest) = (take n rest, drop n rest)

pub taken : (b rest : Bytes) → take (length b) (b ++ rest) ≡ b
taken b rest = take-append_length (length b) b rest refl

pub dropped : (b rest : Bytes) → drop (length b) (b ++ rest) ≡ rest
dropped b rest = drop-append_length (length b) b rest refl

abbrev pub option_field : Option Bytes → Bytes → Bytes
option_field none rest = 0 ∷ rest
option_field (some b) rest = suc (length b) ∷ (b ++ rest)

abbrev pub read_option : Bytes → Option Bytes × Bytes
read_option [] = (none, [])
read_option (zero ∷ rest) = (none, rest)
read_option (suc n ∷ rest) = (some (take n rest), drop n rest)

pub read_option-field :
    (o : Option Bytes) (rest : Bytes) → read_option (option_field o rest) ≡ (o, rest)
read_option-field none rest = refl
read_option-field (some b) rest =
    rw (take-append_length (length b) b rest refl, drop-append_length (length b) b rest refl) refl

abbrev pub number_field : Option ℕ → Bytes → Bytes
number_field none rest = 0 ∷ rest
number_field (some n) rest = suc n ∷ rest

abbrev pub read_number : Bytes → Option ℕ × Bytes
read_number [] = (none, [])
read_number (zero ∷ rest) = (none, rest)
read_number (suc n ∷ rest) = (some n, rest)

pub read_number-field :
    (o : Option ℕ) (rest : Bytes) → read_number (number_field o rest) ≡ (o, rest)
read_number-field none rest = refl
read_number-field (some n) rest = refl

abbrev pub flag_field : Option Bool → Bytes → Bytes
flag_field none rest = 0 ∷ rest
flag_field (some false) rest = 1 ∷ rest
flag_field (some true) rest = 2 ∷ rest

abbrev pub read_flag : Bytes → Option Bool × Bytes
read_flag [] = (none, [])
read_flag (zero ∷ rest) = (none, rest)
read_flag (suc zero ∷ rest) = (some false, rest)
read_flag (suc (suc n) ∷ rest) = (some true, rest)

pub read_flag-field : (o : Option Bool) (rest : Bytes) → read_flag (flag_field o rest) ≡ (o, rest)
read_flag-field none rest = refl
read_flag-field (some false) rest = refl
read_flag-field (some true) rest = refl
