-- ===== src/Io/Forward/Settled.antt =====
-- What is left of the connections when the client loop returns.
use mathlib.Core.Path.{subst}
use pipie.Prelude.{
  ℕ, ◌+◌, ◌==◌, ◌≡◌, inl, inr, List, [], ◌∷◌, ◌++◌, arith, Outcome, ok, err, panic, Bool-cases,
  Option-cases, append-nil,
}
use pipie.Io.Forward.Signal.{signal_connect_agree, signal_connect_refuse}
use pipie.Io.Forward.ClientLoop.{
  client_state_wait, client_state_conn1, ClientLoop, WaitEvent, Conn1Event, conn, conn_closed,
  returned, wait_step, conn1_step, leave, close_pending,
}
use pipie.Io.Forward.Connections.{
  count, count-append, accepted_by, Runs, Owned, some_pending, Runs-Owned,
}

-- The returns of the loop, with what it returns.
pub data Ends : List ℕ → ClientLoop → Outcome (Unit {0}) → Type 0 where
  from_wait :
      {a : List ℕ} {l m : ClientLoop} {r : Outcome (Unit {0})} (e : WaitEvent)
      → Runs a l
      → l.state ≡ client_state_wait
      → wait_step l e ≡ returned m r
      → Ends (a ++ accepted_by e) m r
  from_conn1 :
      {a : List ℕ} {l m : ClientLoop} {r : Outcome (Unit {0})} (e : Conn1Event)
      → Runs a l
      → l.state ≡ client_state_conn1
      → conn1_step l e ≡ returned m r
      → Ends a m r

returned-injective :
    (l m : ClientLoop) (q r : Outcome (Unit {0})) → returned l q ≡ returned m r → (l ≡ m) × (q ≡ r)
returned-injective l m q r e = ground arith

close_pending-settles :
    (a : List ℕ) (l : ClientLoop) (c : ℕ)
    → Owned a l
    → let m = close_pending l.pending_conn l in count c a ≡ count c m.paired + count c m.closed
unfolding close_pending count
close_pending-settles a l c o = elim (Option-cases l.pending_conn) [
  | inl n ↦ ground (arith, o.owned c)
  | inr (d, e) ↦ ground (arith, o.owned c, count-append c l.closed (d ∷ []))
]

-- A return closes the pending connection, if there is one.
leave-settles :
    (a : List ℕ) (l m : ClientLoop) (q r : Outcome (Unit {0})) (c : ℕ)
    → Owned a l
    → leave l q ≡ returned m r
    → count c a ≡ count c m.paired + count c m.closed
unfolding leave
leave-settles a l m q r c o e =
    subst (λ t. count c a ≡ count c t.paired + count c t.closed) (returned-injective _ m q r e).0
      (close_pending-settles a l c o)

-- Every return of the waiting loop closes the pending connection; the one that it has just taken is
-- not pending.
pub wait_step-leaves :
    (a : List ℕ) (l m : ClientLoop) (r : Outcome (Unit {0})) (e : WaitEvent) (c : ℕ)
    → Owned a l
    → wait_step l e ≡ returned m r
    → count c a ≡ count c m.paired + count c m.closed
unfolding wait_step
wait_step-leaves a l m r (conn d (ok s)) c o q = absurd (cc)
wait_step-leaves a l m r (conn d (err s)) c o q = leave-settles a l m _ r c o q
wait_step-leaves a l m r (conn d (panic s)) c o q = leave-settles a l m _ r c o q
wait_step-leaves a l m r WaitEvent.dying c o q = leave-settles a l m _ r c o q
wait_step-leaves a l m r WaitEvent.command_closed c o q = leave-settles a l m _ r c o q
wait_step-leaves a l m r conn_closed c o q = leave-settles a l m _ r c o q
wait_step-leaves a l m r (WaitEvent.command s) c o q = leave-settles a l m _ r c o q

wait_step-settles :
    (a : List ℕ) (l m : ClientLoop) (r : Outcome (Unit {0})) (e : WaitEvent) (c : ℕ)
    → Owned a l
    → wait_step l e ≡ returned m r
    → r ≡ ok tt
    → count c (a ++ accepted_by e) ≡ count c m.paired + count c m.closed
unfolding wait_step
wait_step-settles a l m r (conn d (ok s)) c o q k = cc
wait_step-settles a l m r (conn d (err s)) c o q k = ground arith
wait_step-settles a l m r (conn d (panic s)) c o q k = ground arith
wait_step-settles a l m r WaitEvent.dying c o q k = rw append-nil (leave-settles a l m _ r c o q)
wait_step-settles a l m r WaitEvent.command_closed c o q k =
    rw append-nil (leave-settles a l m _ r c o q)
wait_step-settles a l m r conn_closed c o q k = rw append-nil (leave-settles a l m _ r c o q)
wait_step-settles a l m r (WaitEvent.command s) c o q k =
    rw append-nil (leave-settles a l m _ r c o q)

pub conn1_step-settles :
    (a : List ℕ) (l m : ClientLoop) (r : Outcome (Unit {0})) (e : Conn1Event) (c : ℕ)
    → Owned a l
    → l.state ≡ client_state_conn1
    → conn1_step l e ≡ returned m r
    → count c a ≡ count c m.paired + count c m.closed
unfolding conn1_step
conn1_step-settles a l m r Conn1Event.dying c o w q = leave-settles a l m _ r c o q
conn1_step-settles a l m r Conn1Event.command_closed c o w q = leave-settles a l m _ r c o q
conn1_step-settles a l m r (Conn1Event.command s) c o w q =
    let (d, p) = some_pending l o.fits w in
    elim (Bool-cases (s.kind == signal_connect_agree)) [
      | inl agree ↦ absurd (ground arith)
      | inr no_agree ↦ elim (Bool-cases (s.kind == signal_connect_refuse)) [
        | inl refuse ↦ absurd (ground arith)
        | inr no_refuse ↦ leave-settles a l m (ok tt) r c o (rw no_agree at (rw no_refuse at q))
      ]
    ]

-- When the client loop returns nil, no connection is left over: each one that it accepted was
-- handed to a pairing or closed, as often as it was accepted.
pub Ends-settled :
    {a : List ℕ} {m : ClientLoop} {r : Outcome (Unit {0})}
    → Ends a m r
    → r ≡ ok tt
    → (c : ℕ) → count c a ≡ count c m.paired + count c m.closed
Ends-settled (from_wait {a} {l} {m} {r} e run w q) k c =
    wait_step-settles a l m r e c (Runs-Owned run) q k
Ends-settled (from_conn1 {a} {l} {m} {r} e run w q) k c =
    conn1_step-settles a l m r e c (Runs-Owned run) w q
