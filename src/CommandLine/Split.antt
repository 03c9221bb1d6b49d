-- ===== src/CommandLine/Split.antt =====
-- strings.Split, as the forward addresses of cmd/pipie/main.go are cut by it.
use pipie.Prelude.{
  ℕ, ◌≤◌, length, ◌≡◌, refl, ap, false, ◌==◌, List, [], ◌∷◌, ◌++◌, Bytes, All, arith, inl, inr,
  Bool-cases, ==_iff,
}
use pipie.CommandLine.{split, add_byte}

-- No byte of the list is the separator.
abbrev pub Free : ℕ → Bytes → Type 0
Free sep = All (λ c. (c == sep) ≡ false)

-- The parts with the separator between them.
unfoldable pub join : ℕ → List Bytes → Bytes
join sep [] = []
join sep (part ∷ []) = part
join sep (part ∷ (next ∷ parts)) = part ++ (sep ∷ join sep (next ∷ parts))

pub split-Free : (sep : ℕ) (s : Bytes) → Free sep s → split sep s ≡ s ∷ []
unfolding split
split-Free sep [] f = refl
split-Free sep (c ∷ s) f = rw (f.0, split-Free sep s f.1)

pub split-append :
    (sep : ℕ) (s t : Bytes) → Free sep s → split sep (s ++ (sep ∷ t)) ≡ s ∷ split sep t
unfolding split
split-append sep [] t f = rw ((==_iff sep sep).1 refl)
split-append sep (c ∷ s) t f = rw (f.0, split-append sep s t f.1)

-- What the parts of a list have to do with it.
pub record Parted (sep : ℕ) (s : Bytes) (parts : List Bytes) : Type 0 where
  pub some_part : 1 ≤ length parts
  pub joined : join sep parts ≡ s
  pub free : All (Free sep) parts

Parted-separator :
    (sep c : ℕ) (s : Bytes) (parts : List Bytes)
    → c ≡ sep
    → Parted sep s parts
    → Parted sep (c ∷ s) ([] ∷ parts)
unfolding join
Parted-separator sep c s [] e v = absurd (omega (arith, v.some_part))
Parted-separator sep c s (first ∷ others) e v = record {
  some_part = omega arith;
  joined = rw (e, v.joined);
  free = (tt, v.free);
}

Parted-byte :
    (sep c : ℕ) (s : Bytes) (parts : List Bytes)
    → (c == sep) ≡ false
    → Parted sep s parts
    → Parted sep (c ∷ s) (add_byte c parts)
unfolding join
Parted-byte sep c s [] e v = absurd (omega (arith, v.some_part))
Parted-byte sep c s (first ∷ []) e v = record {
  some_part = omega arith;
  joined = ap (λ t. c ∷ t) v.joined;
  free = ((e, v.free.0), v.free.1);
}
Parted-byte sep c s (first ∷ (next ∷ others)) e v = record {
  some_part = omega arith;
  joined = ap (λ t. c ∷ t) v.joined;
  free = ((e, v.free.0), v.free.1);
}

-- The parts of a list are one or more, do not hold the separator, and give the list back when the
-- separator is put between them.
pub split-Parted : (sep : ℕ) (s : Bytes) → Parted sep s (split sep s)
unfolding split join
split-Parted sep [] = record { some_part = omega arith; joined = refl; free = (tt, tt) }
split-Parted sep (c ∷ s) =
    let v = split-Parted sep s in
    elim (Bool-cases (c == sep)) [
      | inl e ↦ rw e (Parted-separator sep c s (split sep s) ((==_iff c sep).0 e) v)
      | inr e ↦ rw e (Parted-byte sep c s (split sep s) e v)
    ]
