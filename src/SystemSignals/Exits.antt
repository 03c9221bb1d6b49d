-- ===== src/SystemSignals/Exits.antt =====
-- When the handler of the signals ends the process.
use mathlib.Core.Path.{subst}
use pipie.Prelude.{
  ℕ, ◌==◌, ◌≡◌, refl, sym, ap, ◌∙◌, ◌↔◌, ◌⊎◌, inl, inr, Bool, true, false, none, some, List, [],
  ◌∷◌, ◌++◌, arith, Option-cases, if◌then◌else◌,
}
use pipie.SystemSignals.{
  sigint, sigpipe, Handler, new_handler, has_signal, delete_signal, ignore_signal_default,
  un_ignore_signal_default, pass_on, handle_signal, Event, ignore, un_ignore, arrives, on_event,
  run_events,
}

-- What the last call about a signal said, the latest event first.
abbrev pub told_to_ignore : List Event → ℕ → Bool
told_to_ignore [] sig = false
told_to_ignore (ignore s ∷ past) sig = if sig == s then true else told_to_ignore past sig
told_to_ignore (un_ignore s ∷ past) sig = if sig == s then false else told_to_ignore past sig
told_to_ignore (arrives received s ∷ past) sig = told_to_ignore past sig

-- SIGINT and SIGPIPE that somebody waits for, or that were to be ignored when they came.
abbrev pub Harmless : List Event → Bool → ℕ → Type 0
Harmless past received sig =
    ((sig ≡ sigint) ⊎ (sig ≡ sigpipe)) × ((received ≡ true) ⊎ (told_to_ignore past sig ≡ true))

-- The events in front, the latest first.
abbrev pub onto : List Event → List Event → List Event
onto [] past = past
onto (e ∷ events) past = onto events (e ∷ past)

abbrev Mirrors : Handler → List Event → Type 0
Mirrors h past = (x : ℕ) → has_signal x h.sig_ignore ≡ told_to_ignore past x

has_signal-delete :
    (x sig : ℕ) (m : List ℕ)
    → has_signal x (delete_signal sig m) ≡ (if x == sig then false else has_signal x m)
unfolding has_signal delete_signal
has_signal-delete x sig [] = ground arith
has_signal-delete x sig (s ∷ m) = ground (arith, has_signal-delete x sig m)

on_event-Mirrors :
    (e : Event) (h : Handler) (past : List Event)
    → Mirrors h past
    → Mirrors (on_event e h) (e ∷ past)
unfolding on_event ignore_signal_default un_ignore_signal_default handle_signal pass_on has_signal
on_event-Mirrors (ignore sig) h past m x = ground (arith, has_signal-delete x sig h.sig_ignore, m x)
on_event-Mirrors (un_ignore sig) h past m x =
    ground (arith, has_signal-delete x sig h.sig_ignore, m x)
on_event-Mirrors (arrives received sig) h past m x = ground (arith, m x)

arrives-Harmless :
    (received : Bool) (sig : ℕ) (h : Handler) (past : List Event)
    → Mirrors h past
    → h.exited ≡ none
    → ((on_event (arrives received sig) h).exited ≡ none) ↔ Harmless past received sig
unfolding on_event handle_signal pass_on
arrives-Harmless received sig h past m n =
    (λ q. (ground (arith, m sig), ground (arith, m sig)), λ q. ground (arith, m sig))

-- Every signal that arrives among the events is harmless.
abbrev pub AllHarmless : List Event → List Event → Type 0
AllHarmless events past =
    (before : List Event) (received : Bool) (sig : ℕ) (after : List Event)
    → events ≡ before ++ (arrives received sig ∷ after)
    → Harmless (onto before past) received sig

-- The handler goes on behind an event, or it has ended there.
run_events-cons :
    (e : Event) (events : List Event) (h : Handler)
    → h.exited ≡ none
    → run_events (e ∷ events) h ≡ run_events events (on_event e h)
unfolding run_events
run_events-cons e events h n = ground arith

run_events-exited :
    (events : List Event) (h : Handler) (code : ℕ)
    → h.exited ≡ some code
    → (run_events events h).exited ≡ some code
unfolding run_events
run_events-exited [] h code e = e
run_events-exited (v ∷ events) h code e = ground arith

head_of : (e v : Event) (es vs : List Event) → e ∷ es ≡ v ∷ vs → (e ≡ v) × (es ≡ vs)
head_of e v es vs q = (cc, cc)

-- An event leaves the handler running exactly if it is harmless, should it be a signal.
on_event-exited :
    (e : Event) (h : Handler) (past : List Event)
    → Mirrors h past
    → h.exited ≡ none
    → ((received : Bool) (sig : ℕ) → e ≡ arrives received sig → Harmless past received sig)
    → (on_event e h).exited ≡ none
unfolding on_event ignore_signal_default un_ignore_signal_default
on_event-exited (ignore sig) h past m n a = n
on_event-exited (un_ignore sig) h past m n a = n
on_event-exited (arrives received sig) h past m n a =
    (arrives-Harmless received sig h past m n).1 (a received sig refl)

on_event-Harmless :
    (e : Event) (h : Handler) (past : List Event) (received : Bool) (sig : ℕ)
    → Mirrors h past
    → h.exited ≡ none
    → (on_event e h).exited ≡ none
    → e ≡ arrives received sig
    → Harmless past received sig
on_event-Harmless e h past received sig m n x q =
    (arrives-Harmless received sig h past m n).0 (subst (λ v. (on_event v h).exited ≡ none) q x)

still_running :
    (e : Event) (events : List Event) (h : Handler)
    → h.exited ≡ none
    → (run_events (e ∷ events) h).exited ≡ none
    → ((on_event e h).exited ≡ none) × ((run_events events (on_event e h)).exited ≡ none)
still_running e events h n r =
    let r' = ap (λ v. v.exited) (sym (run_events-cons e events h n)) ∙ r in
    elim (Option-cases (on_event e h).exited) [
      | inr (code, x) ↦ absurd (ground (arith, run_events-exited events (on_event e h) code x))
      | inl x ↦ (x, r')
    ]

run_events-Harmless :
    (events : List Event) (h : Handler) (past : List Event)
    → Mirrors h past
    → h.exited ≡ none
    → (run_events events h).exited ≡ none
    → AllHarmless events past
run_events-Harmless [] h past m n r [] received sig after q = absurd (cc)
run_events-Harmless [] h past m n r (b ∷ before) received sig after q = absurd (cc)
run_events-Harmless (e ∷ events) h past m n r [] received sig after q =
    on_event-Harmless e h past received sig m n (still_running e events h n r).0
      (head_of e (arrives received sig) events after q).0
run_events-Harmless (e ∷ events) h past m n r (b ∷ before) received sig after q =
    let (x, r') = still_running e events h n r in
    let (same, rest) = head_of e b events (before ++ (arrives received sig ∷ after)) q in
    subst (λ v. Harmless (onto before (v ∷ past)) received sig) same
      (run_events-Harmless events (on_event e h) (e ∷ past) (on_event-Mirrors e h past m) x r'
        before received sig after rest)

Harmless-run_events :
    (events : List Event) (h : Handler) (past : List Event)
    → Mirrors h past
    → h.exited ≡ none
    → AllHarmless events past
    → (run_events events h).exited ≡ none
unfolding run_events
Harmless-run_events [] h past m n a = n
Harmless-run_events (e ∷ events) h past m n a =
    let x =
      on_event-exited e h past m n
        (λ received sig q. a [] received sig events (ap (λ v. v ∷ events) q)) in
    ap (λ v. v.exited) (run_events-cons e events h n)
    ∙ Harmless-run_events events (on_event e h) (e ∷ past) (on_event-Mirrors e h past m) x
        (λ before received sig after q. a (e ∷ before) received sig after (ap (λ l. e ∷ l) q))

-- Whatever calls and signals come, in any order, the process is still running behind them exactly if
-- each signal that came was SIGINT or SIGPIPE, and somebody waited for it or the last call about it
-- was to ignore it.
pub run_events-exited_iff :
    (events : List Event) → ((run_events events new_handler).exited ≡ none) ↔ AllHarmless events []
unfolding has_signal
run_events-exited_iff events = (
  λ r. run_events-Harmless events new_handler [] (λ x. refl) refl r,
  λ a. Harmless-run_events events new_handler [] (λ x. refl) refl a,
)
