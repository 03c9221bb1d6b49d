-- ===== src/Services/Closing.antt =====
-- A port forward service closes what it opened, if its forward returns.
use pipie.Prelude.{suc, ◌≡◌, true, false, none, Option, Outcome}
use pipie.Io.Session.{ForwardAnswers, SessionWorld}
use pipie.Io.SessionEnds.{Closes, IsReturned}

-- What a service leaves: no stream and no listener; and no session if it returns, which it does unless
-- a goroutine is left at its send, and then the session stays open.
pub record ServiceLeaves (a : ForwardAnswers) (w : SessionWorld)
    (end : Option (Outcome (Unit {0})) × SessionWorld) : Type 0 where
  pub closed : Closes w end.1
  pub returns : end.1.left ≡ false → IsReturned end.0 × (end.1.sessions ≡ w.sessions)
  pub hangs :
      end.1.left ≡ true
      → (end.0 ≡ none) × (end.1.sessions ≡ suc w.sessions) × (a.left_at_send ≡ true)
