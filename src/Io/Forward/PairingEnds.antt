-- ===== src/Io/Forward/PairingEnds.antt =====
-- How a pair of connections ends.

use pipie.Prelude.{◌≡◌, refl, Bool, true, false, none, arith, ◌||◌, ◌&&◌, inl, inr, Bool-cases}
use pipie.Io.Forward.StartPairing.{
  GoStage, MainStage, Shared, copies, before_listen_close, before_conn_close, before_kill, ended,
  awaits_dying, closes_conn, closes_listen, awaits_goroutines, returned, PairingState,
  start_pairing, go_on, main_goes_on, has_ended, local_goes_on, stream_goes_on, pairing_goes_on,
  parent_ends, PairingStep, local_moves, stream_moves, main_moves, parent_kills, PairingSteps,
  no_step, more_steps,
}

-- Whether a goroutine, or startPairing, has passed its call of Close on an end.
abbrev pub go_closed_listen : GoStage → Bool
go_closed_listen copies = false
go_closed_listen before_listen_close = false
go_closed_listen _ = true

abbrev pub go_closed_conn : GoStage → Bool
go_closed_conn copies = false
go_closed_conn before_listen_close = false
go_closed_conn before_conn_close = false
go_closed_conn _ = true

abbrev pub main_closed_listen : MainStage → Bool
main_closed_listen awaits_goroutines = true
main_closed_listen returned = true
main_closed_listen _ = false

abbrev pub main_closed_conn : MainStage → Bool
main_closed_conn awaits_dying = false
main_closed_conn closes_conn = false
main_closed_conn _ = true

abbrev has_returned : MainStage → Bool
has_returned returned = true
has_returned _ = false

abbrev has_left : MainStage → Bool
has_left awaits_dying = false
has_left _ = true

-- Who has closed what, who lives while the tomb is alive, and who has ended when startPairing returns.
pub record Orderly (s : PairingState) : Type 0 where
  pub listen : s.shared.listen_closed ≡ (
      go_closed_listen s.from_local
      || (go_closed_listen s.from_stream || main_closed_listen s.stage))
  pub conn :
      s.shared.conn_closed
      ≡ (go_closed_conn s.from_local || (go_closed_conn s.from_stream || main_closed_conn s.stage))
  pub alive :
      s.shared.dying ≡ false
      → (has_ended s.from_local ≡ false)
        × (has_ended s.from_stream ≡ false)
        × (has_left s.stage ≡ false)
  pub done :
      has_returned s.stage ≡ true
      → (has_ended s.from_local ≡ true) × (has_ended s.from_stream ≡ true)

-- The same of the parts of a state.
abbrev OrderlyParts : GoStage → GoStage → MainStage → Shared → Type 0
OrderlyParts l r m x = Orderly (record { from_local = l; from_stream = r; stage = m; shared = x })

local-Orderly :
    (l r : GoStage) (m : MainStage) (x : Shared)
    → OrderlyParts l r m x
    → Orderly (local_goes_on (record { from_local = l; from_stream = r; stage = m; shared = x }))
unfolding local_goes_on go_on
local-Orderly copies r m x o = record {
  listen = o.listen;
  conn = o.conn;
  alive = o.alive;
  done = λ q. ground (arith, o.done q);
}
local-Orderly before_listen_close r m x o = record {
  listen = refl;
  conn = o.conn;
  alive = o.alive;
  done = λ q. ground (arith, o.done q);
}
local-Orderly before_conn_close r m x o = record {
  listen = o.listen;
  conn = refl;
  alive = o.alive;
  done = λ q. ground (arith, o.done q);
}
local-Orderly before_kill r m x o = record {
  listen = o.listen;
  conn = o.conn;
  alive = λ d. absurd (cc);
  done = λ q. ground (arith, o.done q);
}
local-Orderly ended r m x o = o

-- The two goroutines are alike.
or_swap : (a b c : Bool) → (a || (b || c)) ≡ (b || (a || c))
or_swap a b c = ground arith

swapped : (l r : GoStage) (m : MainStage) (x : Shared) → OrderlyParts l r m x → OrderlyParts r l m x
swapped l r m x o = record {
  listen =
      ground
        (arith, o.listen, or_swap (go_closed_listen l) (go_closed_listen r) (main_closed_listen m));
  conn = ground (arith, o.conn, or_swap (go_closed_conn l) (go_closed_conn r) (main_closed_conn m));
  alive = λ d. let (a, b, c) = o.alive d in (b, a, c);
  done = λ q. let (a, b) = o.done q in (b, a);
}

stream-Orderly :
    (l r : GoStage) (m : MainStage) (x : Shared)
    → OrderlyParts l r m x
    → Orderly (stream_goes_on (record { from_local = l; from_stream = r; stage = m; shared = x }))
unfolding stream_goes_on local_goes_on
stream-Orderly l r m x o =
    swapped (go_on r x).0 l m (go_on r x).1 (local-Orderly r l m x (swapped l r m x o))

main-Orderly :
    (l r : GoStage) (m : MainStage) (x : Shared)
    → OrderlyParts l r m x
    → Orderly (pairing_goes_on (record { from_local = l; from_stream = r; stage = m; shared = x }))
unfolding pairing_goes_on main_goes_on
main-Orderly l r awaits_dying x o = elim (Bool-cases x.dying) [
  | inl e ↦ rw e (record {
    listen = o.listen;
    conn = o.conn;
    alive = λ d. absurd (cc);
    done = λ q. absurd (cc);
  })
  | inr e ↦ simp e o
]
main-Orderly l r closes_conn x o = record {
  listen = o.listen;
  conn = ground arith;
  alive = λ d. absurd (ground (arith, o.alive d));
  done = λ q. absurd (cc);
}
main-Orderly l r closes_listen x o = record {
  listen = ground arith;
  conn = o.conn;
  alive = λ d. absurd (ground (arith, o.alive d));
  done = λ q. absurd (cc);
}
main-Orderly l r awaits_goroutines x o = elim (Bool-cases (has_ended l && has_ended r)) [
  | inl e ↦ rw e (record {
    listen = o.listen;
    conn = o.conn;
    alive = λ d. absurd (ground (arith, o.alive d));
    done = λ q. ground arith;
  })
  | inr e ↦ rw e o
]
main-Orderly l r returned x o = o

Step-Orderly : {s t : PairingState} → PairingStep s t → Orderly s → Orderly t
unfolding parent_ends
Step-Orderly {s} local_moves o = local-Orderly s.from_local s.from_stream s.stage s.shared o
Step-Orderly {s} stream_moves o = stream-Orderly s.from_local s.from_stream s.stage s.shared o
Step-Orderly {s} main_moves o = main-Orderly s.from_local s.from_stream s.stage s.shared o
Step-Orderly {s} parent_kills o = record {
  listen = o.listen;
  conn = o.conn;
  alive = λ d. absurd (cc);
  done = o.done;
}

start_pairing-Orderly : Orderly (start_pairing none)
unfolding start_pairing
start_pairing-Orderly = record {
  listen = refl;
  conn = refl;
  alive = λ d. (refl, refl, refl);
  done = λ q. absurd (cc);
}

-- In every state of a pair whose stream was opened, whatever the order of the steps of its two
-- goroutines, of startPairing and of the context's end: the local connection, and likewise the stream,
-- has been closed exactly if a goroutine or startPairing is past its call of Close on it; while the
-- tomb is alive no goroutine has ended and startPairing is at `<-t.Dying()`; and startPairing has
-- returned only if both goroutines have ended.
pub PairingSteps-Orderly : {s : PairingState} → PairingSteps (start_pairing none) s → Orderly s
PairingSteps-Orderly no_step = start_pairing-Orderly
PairingSteps-Orderly (more_steps r m) = Step-Orderly m (PairingSteps-Orderly r)
