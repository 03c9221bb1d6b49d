-- ===== src/Io/Forward/DealerExamples.antt =====
-- A command channel with an encoding of a toy kind.
use mathlib.Core.Path.{subst}
use pipie.Prelude.{
  ap, sym, ◌≡◌, refl, Bool, true, ◌&&◌, Bool-cases, some, [], ◌∷◌, ◌++◌, ltb, Bytes, text, arith,
  inl, inr, Outcome, ok, err, if◌then◌else◌,
}
use pipie.Io.Forward.Signal.{PortForwardSignal, signal_of, signal_connect, signal_bye}
use pipie.Io.Forward.Dealer.{
  Json, send_signal, read_bytes, get_signal, read_commands, command_reader,
}
use pipie.Io.Forward.DealerOrder.{NoNewline, JsonLaws, send_signals, command_reader-sent}

abbrev small : PortForwardSignal → Bool
small s = ltb s.version 10 && (ltb s.kind 10 && ltb s.code 10)

abbrev read_three : Bytes → Outcome PortForwardSignal
read_three (v ∷ (k ∷ (c ∷ rest))) = ok (record { version = v; kind = k; code = c })
read_three _ = err (text "unexpected end of JSON input")

abbrev digits_json : Json
digits_json = record {
  marshal =
      λ s. if small s then ok (s.version ∷ (s.kind ∷ (s.code ∷ []))) else err (text "too large");
  unmarshal = read_three;
}

small-NoNewline :
    (s : PortForwardSignal) → small s ≡ true → NoNewline (s.version ∷ (s.kind ∷ (s.code ∷ [])))
small-NoNewline s q = (ground arith, (ground arith, (ground arith, tt)))

marshal-parts :
    (s : PortForwardSignal) (b : Bytes)
    → digits_json.marshal s ≡ ok b
    → (small s ≡ true) × ((s.version ∷ (s.kind ∷ (s.code ∷ []))) ≡ b)
marshal-parts s b e = elim (Bool-cases (small s)) [
  | inl q ↦ (q, ground arith)
  | inr q ↦ absurd (ground arith)
]

digits_json-JsonLaws : JsonLaws digits_json
digits_json-JsonLaws = record {
  one_line = λ s b e. let h = marshal-parts s b e in subst NoNewline h.1 (small-NoNewline s h.0);
  reads = λ s b e. let h = marshal-parts s b e in ap (λ x. read_three (x ++ (10 ∷ []))) (sym h.1);
}

both_written :
    send_signals digits_json (signal_of signal_connect ∷ (signal_of signal_bye ∷ [])) []
    ≡ (ok tt, 1 ∷ (1 ∷ (0 ∷ (10 ∷ (1 ∷ (4 ∷ (0 ∷ (10 ∷ []))))))))
unfolding send_signals send_signal
both_written = refl

bad_line :
    (command_reader digits_json (text "EOF") (1 ∷ (10 ∷ (1 ∷ (4 ∷ (0 ∷ (10 ∷ []))))))).ended
    ≡ some (text "unexpected end of JSON input")
unfolding command_reader read_commands get_signal read_bytes
bad_line = refl

command_reader-sent_example :
    command_reader digits_json
      (text "EOF")
      ((1 ∷ (1 ∷ (0 ∷ (10 ∷ (1 ∷ (4 ∷ (0 ∷ (10 ∷ [])))))))) ++ (1 ∷ (1 ∷ [])))
    ≡ record {
      delivered = signal_of signal_connect ∷ (signal_of signal_bye ∷ []);
      ended = some (text "EOF");
    }
command_reader-sent_example =
    command_reader-sent digits_json digits_json-JsonLaws (text "EOF")
      (signal_of signal_connect ∷ (signal_of signal_bye ∷ [])) _ (1 ∷ (1 ∷ [])) both_written
      (refl, (refl, tt))
