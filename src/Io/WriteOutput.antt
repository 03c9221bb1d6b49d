-- ===== src/Io/WriteOutput.antt =====
-- What the write loop of a copy delivers of one chunk.
use pipie.Prelude.{
  ℕ, zero, suc, ◌≤◌, ◌<◌, ◌≡◌, ◌≢◌, refl, sym, ap, ◌∙◌, inl, inr, false, Option, none, some, [],
  ◌∷◌, ◌++◌, take, drop, length, length-drop, take-append-drop, append_assoc, append-nil, Bytes,
  arith, Bool-cases, Option-cases, ◌==◌, ltb,
}
use pipie.Io.Copy.{WriteResult, Why, wrote_zero, fuel, write_failed, Copied, write_loop, write_all}

-- The documented bound of io.Writer: a call takes no more than it is given.
abbrev pub WithinChunk : {W : Type 0} → (W → Bytes → WriteResult × W) → Type 0
WithinChunk {W} write = (w : W) (b : Bytes) → (write w b).0.count ≤ length b

-- The writer did not fail: it neither returned an error nor took nothing.
abbrev pub WriterHeld : Option Why → Type 0
WriterHeld (some (write_failed e)) = ⊥
WriterHeld (some wrote_zero) = ⊥
WriterHeld _ = Unit

module _ {W : Type 0} (write : W → Bytes → WriteResult × W) where
  -- With more fuel than bytes the loop ends by itself; it ends with no reason given exactly when
  -- all was taken, and else a part was.
  pub record Wrote (bytes output : Bytes) (c : Copied W) : Type 0 where
    pub no_fuel : c.why ≢ some fuel
    pub all : c.why ≡ none → c.output ≡ output ++ bytes
    pub held : WriterHeld c.why → c.why ≡ none
    pub rest : Bytes
    pub part : output ++ bytes ≡ c.output ++ rest

  write_loop-Wrote :
      (f : ℕ) (w : W) (bytes output : Bytes)
      → WithinChunk write
      → length bytes < f
      → Wrote bytes output (write_loop write f w bytes output)
  unfolding write_loop
  write_loop-Wrote zero w bytes output law h = absurd (omega arith)
  write_loop-Wrote (suc f) w [] output law h = record {
    no_fuel = λ e. cc;
    all = λ _. sym (append-nil output);
    held = λ _. refl;
    rest = [];
    part = refl;
  }
  write_loop-Wrote (suc f) w (b ∷ bs) output law h =
      let whole = b ∷ bs in
      let r = (write w whole).0 in
      let left : whole ≡ take r.count whole ++ drop r.count whole =
        sym (take-append-drop r.count whole) in
      let part : output ++ whole ≡ (output ++ take r.count whole) ++ drop r.count whole =
        ap (λ t. output ++ t) left ∙ sym (append_assoc output _ _) in
      elim (Option-cases r.error) [
        | inr (e, q) ↦
            rw (q, write_loop)
              (record {
                no_fuel = λ x. cc;
                all = λ x. cc;
                held = λ x. absurd x;
                rest = drop r.count whole;
                part = part;
              })
        | inl q ↦ elim (Bool-cases (r.count == 0)) [
          | inl z ↦
              rw (q, write_loop)
                (rw z (record {
                  no_fuel = λ x. cc;
                  all = λ x. cc;
                  held = λ x. absurd x;
                  rest = drop r.count whole;
                  part = part;
                }))
          | inr nz ↦
              let fits : ltb (length whole) r.count ≡ false = ground (arith, law w whole) in
              let ih =
                write_loop-Wrote f (write w whole).1 (drop r.count whole)
                  (output ++ take r.count whole) law (ground (arith, length-drop r.count whole)) in
              rw (q, write_loop)
                (rw (nz, fits)
                  (record {
                    no_fuel = ih.no_fuel;
                    all = λ e. ih.all e ∙ sym part;
                    held = ih.held;
                    rest = ih.rest;
                    part = part ∙ ih.part;
                  }))
        ]
      ]

  pub write_all-Wrote :
      (w : W) (bytes output : Bytes)
      → WithinChunk write
      → Wrote bytes output (write_all write w bytes output)
  unfolding write_all
  write_all-Wrote w bytes output law =
      write_loop-Wrote (suc (length bytes)) w bytes output law (omega arith)
