-- ===== src/SystemSignals.antt =====
-- lib/signal/signal.go: which signals of the system end the process.
pub mod Exits
mod Examples
use pipie.Prelude.{
  ℕ, ◌+◌, ◌==◌, Bool, true, false, Option, none, some, List, [], ◌∷◌, ◌++◌, if◌then◌else◌,
}

-- The numbers of the signals.
abbrev pub sigint : ℕ
sigint = 2

abbrev pub sigpipe : ℕ
sigpipe = 13

-- SigIgnore, what went into SignalSIGINT and SignalSIGPIPE, and the code of os.Exit.
pub record Handler : Type 0 where
  pub sig_ignore : List ℕ
  pub passed_on : List ℕ
  pub exited : Option ℕ

abbrev pub new_handler : Handler
new_handler = record { sig_ignore = []; passed_on = []; exited = none }

unfoldable pub has_signal : ℕ → List ℕ → Bool
has_signal sig [] = false
has_signal sig (s ∷ signals) = if sig == s then true else has_signal sig signals

unfoldable pub delete_signal : ℕ → List ℕ → List ℕ
delete_signal sig [] = []
delete_signal sig (s ∷ signals) =
    let rest = delete_signal sig signals in if sig == s then rest else s ∷ rest

unfoldable pub ignore_signal_default : ℕ → Handler → Handler
unfolding delete_signal
ignore_signal_default sig h = record h { sig_ignore = sig ∷ delete_signal sig h.sig_ignore }

unfoldable pub un_ignore_signal_default : ℕ → Handler → Handler
unfolding delete_signal
un_ignore_signal_default sig h = record h { sig_ignore = delete_signal sig h.sig_ignore }

-- The select of SIGINT and SIGPIPE; `received` is whether somebody waits at the channel.
unfoldable pub pass_on : Bool → ℕ → Handler → Handler
unfolding has_signal
pass_on received sig h =
    if received
    then record h { passed_on = h.passed_on ++ (sig ∷ []) }
    else if has_signal sig h.sig_ignore
    then h
    else record h { exited = some (128 + sig) }

-- A round of the goroutine of RegisterSignalHandler.
unfoldable pub handle_signal : Bool → ℕ → Handler → Handler
unfolding pass_on
handle_signal received sig h =
    if sig == sigint
    then pass_on received sig h
    else if sig == sigpipe
    then pass_on received sig h
    else record h { exited = some 128 }

-- What happens to the handler, until the process ends.
pub data Event : Type 0 where
  ignore un_ignore : ℕ → Event
  arrives : Bool → ℕ → Event

unfoldable pub on_event : Event → Handler → Handler
unfolding ignore_signal_default un_ignore_signal_default handle_signal
on_event (ignore sig) h = ignore_signal_default sig h
on_event (un_ignore sig) h = un_ignore_signal_default sig h
on_event (arrives received sig) h = handle_signal received sig h

unfoldable pub run_events : List Event → Handler → Handler
unfolding on_event
run_events [] h = h
run_events (e ∷ events) h =
    let rest = run_events events (on_event e h) in elim h.exited [ none ↦ rest | some code ↦ h ]
