-- ===== src/Io/Forward/DealerOrder.antt =====
-- Signals over the command channel arrive as they were sent.
use pipie.Prelude.{
  ℕ, zero, suc, ◌<◌, ◌≡◌, refl, sym, ap, ◌∙◌, ◌==◌, false, none, some, List, [], ◌∷◌, ◌++◌, length,
  length-append, append_assoc, append-nil, All, Bytes, arith, Action, Outcome, IsFailure, ok, err,
  panic, inl, inr, Outcome-cases, Option-cases, Bool-cases, ◌>>◌, pure,
}
use pipie.Io.Forward.Signal.{PortForwardSignal}
use pipie.Io.Forward.Dealer.{
  Json, read_bytes, get_signal, send_signal, Pumped, read_commands, command_reader, pump,
}

abbrev pub NoNewline : Bytes → Type 0
NoNewline = All (λ c. (c == 10) ≡ false)

-- An encoding is one line, and is read back with the end of the line.
pub record JsonLaws (json : Json) : Type 0 where
  pub one_line : (s : PortForwardSignal) (b : Bytes) → json.marshal s ≡ ok b → NoNewline b
  pub reads :
      (s : PortForwardSignal) (b : Bytes)
      → json.marshal s ≡ ok b
      → json.unmarshal (b ++ (10 ∷ [])) ≡ ok s

read_bytes-line :
    (b s : Bytes) → NoNewline b → read_bytes 10 (b ++ (10 ∷ s)) ≡ some (b ++ (10 ∷ []), s)
unfolding read_bytes
read_bytes-line [] s f = refl
read_bytes-line (c ∷ b) s f = rw (f.0, read_bytes-line b s f.1) refl

read_bytes-none : (s : Bytes) → NoNewline s → read_bytes 10 s ≡ none
unfolding read_bytes
read_bytes-none [] f = refl
read_bytes-none (c ∷ s) f = rw (f.0, read_bytes-none s f.1) refl

module _ (json : Json) where
  -- The signals are sent one after another, and no write fails.
  unfoldable pub send_signals : List PortForwardSignal → Action Bytes (Unit {0})
  unfolding send_signal
  send_signals [] = pure tt
  send_signals (s ∷ signals) = send_signal json none none s >> send_signals signals

  -- What the signals are written as.
  data Lines : List PortForwardSignal → Bytes → Type 0 where
    no_lines : Lines [] []
    one_line_more :
        (s : PortForwardSignal) (signals : List PortForwardSignal) (b rest : Bytes)
        → json.marshal s ≡ ok b
        → Lines signals rest
        → Lines (s ∷ signals) (b ++ (10 ∷ rest))

  record Written (signals : List PortForwardSignal) (w v : Bytes) : Type 0 where
    more : Bytes
    behind : v ≡ w ++ more
    lines : Lines signals more

  send_signals-Written :
      (signals : List PortForwardSignal) (w v : Bytes)
      → send_signals signals w ≡ (ok tt, v)
      → Written signals w v
  unfolding send_signals send_signal
  send_signals-Written [] w v e = record {
    more = [];
    behind = sym (ap (λ r. r.1) e) ∙ sym (append-nil w);
    lines = no_lines;
  }
  send_signals-Written (s ∷ signals) w v e = elim (Outcome-cases (json.marshal s)) [
    | inr f ↦ absurd (ground arith)
    | inl (b, m) ↦
        let h = send_signals-Written signals (w ++ (b ++ (10 ∷ []))) v (rw m at e) in
        record {
          more = b ++ (10 ∷ h.more);
          behind =
              h.behind
              ∙ append_assoc w (b ++ (10 ∷ [])) h.more
              ∙ ap (λ t. w ++ t) (append_assoc b (10 ∷ []) h.more);
          lines = one_line_more s signals b h.more m h.lines;
        }
  ]

  get_signal-line :
      (laws : JsonLaws json) (e : Bytes) (s : PortForwardSignal) (b rest tail : Bytes)
      → json.marshal s ≡ ok b
      → get_signal json e ((b ++ (10 ∷ rest)) ++ tail) ≡ (ok s, rest ++ tail)
  unfolding get_signal
  get_signal-line laws e s b rest tail m =
      rw
        (
          append_assoc b (10 ∷ rest) tail,
          read_bytes-line b (rest ++ tail) (laws.one_line s b m),
          laws.reads s b m,
        )
        refl

  read_commands-Lines :
      (laws : JsonLaws json) (e : Bytes) (fuel : ℕ) (signals : List PortForwardSignal)
      (u tail : Bytes)
      → Lines signals u
      → NoNewline tail
      → length (u ++ tail) < fuel
      → read_commands json e fuel (u ++ tail) ≡ record { delivered = signals; ended = some e }
  unfolding read_commands get_signal
  read_commands-Lines laws e zero signals u tail l f h = absurd (omega arith)
  read_commands-Lines laws e (suc fuel) _ _ tail no_lines f h = rw (read_bytes-none tail f) refl
  read_commands-Lines laws e (suc fuel) _ _ tail (one_line_more s signals b rest m l) f h =
      let shorter : length (rest ++ tail) < fuel = omega (
        arith,
        length-append (b ++ (10 ∷ rest)) tail,
        length-append b (10 ∷ rest),
        length-append rest tail,
      ) in
      rw
        (
          get_signal-line laws e s b rest tail m,
          read_commands-Lines laws e fuel signals rest tail l f shorter,
        )
        refl

  -- Signals that are sent with no failing write arrive in their order, and nothing else does, also
  -- if a line follows that has been cut off; then the goroutine ends with the read error.
  pub command_reader-sent :
      (laws : JsonLaws json) (e : Bytes) (signals : List PortForwardSignal) (v tail : Bytes)
      → send_signals signals [] ≡ (ok tt, v)
      → NoNewline tail
      → command_reader json e (v ++ tail) ≡ record { delivered = signals; ended = some e }
  unfolding command_reader
  command_reader-sent laws e signals v tail sent f =
      let written = send_signals-Written signals [] v sent in
      rw written.behind (
        read_commands-Lines laws e (suc (length (written.more ++ tail))) signals written.more tail
          written.lines f (omega arith))

  read_bytes-shorter :
      (s line rest : Bytes) → read_bytes 10 s ≡ some (line, rest) → length rest < length s
  unfolding read_bytes
  read_bytes-shorter [] line rest e = absurd (cc)
  read_bytes-shorter (c ∷ s) line rest e = elim (Bool-cases (c == 10)) [
    | inl q ↦ ground arith
    | inr q ↦ elim (Option-cases (read_bytes 10 s)) [
      | inl n ↦ absurd (ground arith)
      | inr (found, n) ↦ ground (arith, read_bytes-shorter s found.0 found.1 n)
    ]
  ]

  pump-ended :
      (r : Outcome PortForwardSignal) (more : Pumped json)
      → IsFailure r
      → ¬ ((pump json r more).ended ≡ none)
  pump-ended (ok signal) more f q = f
  pump-ended (err e) more f q = absurd (cc)
  pump-ended (panic e) more f q = absurd (cc)

  read_commands-ends :
      (e : Bytes) (fuel : ℕ) (s : Bytes)
      → length s < fuel
      → ¬ ((read_commands json e fuel s).ended ≡ none)
  unfolding read_commands get_signal
  read_commands-ends e zero s h = absurd (omega arith)
  read_commands-ends e (suc fuel) s h = elim (Option-cases (read_bytes 10 s)) [
    | inl n ↦ rw n (λ q. absurd (cc))
    | inr (found, n) ↦
        let rest = found.1 in
        let shorter : length rest < length s = read_bytes-shorter s found.0 rest n in
        elim (Outcome-cases (json.unmarshal found.0)) [
          | inl (signal, u) ↦ rw (n, u) (read_commands-ends e fuel rest (omega (arith, shorter)))
          | inr g ↦ rw n (pump-ended (json.unmarshal found.0) (read_commands json e fuel rest) g)
        ]
  ]

  -- Whatever arrives, the goroutine's loop comes to an error within its rounds.
  pub command_reader-ends : (e s : Bytes) → ¬ ((command_reader json e s).ended ≡ none)
  unfolding command_reader
  command_reader-ends e s = read_commands-ends e (suc (length s)) s (omega arith)
