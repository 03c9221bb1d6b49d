-- ===== src/SystemSignals/Examples.antt =====
-- The signals of a program that ignores SIGPIPE, as TestMain does.
use pipie.Prelude.{◌≡◌, refl, ◌↔◌, true, false, none, some, [], ◌∷◌, List}
use pipie.SystemSignals.{
  sigint, sigpipe, new_handler, has_signal, delete_signal, ignore_signal_default,
  un_ignore_signal_default, pass_on, handle_signal, Event, ignore, un_ignore, arrives, on_event,
  run_events,
}
use pipie.SystemSignals.Exits.{AllHarmless, run_events-exited_iff}

abbrev broken_pipe : List Event
broken_pipe = ignore sigpipe ∷ (arrives false sigpipe ∷ (arrives true sigint ∷ []))

broken_pipe-goes_on : (run_events broken_pipe new_handler).exited ≡ none
unfolding run_events on_event ignore_signal_default delete_signal handle_signal pass_on has_signal
broken_pipe-goes_on = refl

hang_up-exits : (run_events (arrives true 1 ∷ broken_pipe) new_handler).exited ≡ some 128
unfolding run_events on_event ignore_signal_default delete_signal handle_signal pass_on has_signal
hang_up-exits = refl

unguarded-exits :
    (run_events
      (ignore sigpipe ∷ (un_ignore sigpipe ∷ (arrives false sigpipe ∷ [])))
      new_handler).exited
    ≡ some 141
unfolding run_events on_event ignore_signal_default un_ignore_signal_default delete_signal
    handle_signal pass_on has_signal
unguarded-exits = refl

run_events-exited_iff_example :
    ((run_events broken_pipe new_handler).exited ≡ none) ↔ AllHarmless broken_pipe []
run_events-exited_iff_example = run_events-exited_iff broken_pipe
