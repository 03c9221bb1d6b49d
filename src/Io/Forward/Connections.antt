-- ===== src/Io/Forward/Connections.antt =====
-- What the client loop does with every connection that it accepts.
use mathlib.Core.Path.{subst}
use pipie.Prelude.{
  ℕ, suc, ◌+◌, ◌==◌, ◌≡◌, refl, sym, ◌∙◌, ◌⊎◌, inl, inr, Option, none, some, List, [], ◌∷◌, ◌++◌,
  length, length-append, arith, Outcome, ok, err, panic, if◌then◌else◌, Bool-cases,
}
use pipie.Io.Forward.Signal.{
  PortForwardSignal, signal_of, signal_connect, signal_connect_agree, signal_connect_refuse,
}
use pipie.Io.Forward.ClientLoop.{
  ClientState, client_state_wait, client_state_conn1, ClientLoop, new_client_loop, WaitEvent,
  Conn1Event, conn, conn_closed, next, returned, wait_step, conn1_step,
}

-- How often a connection stands in a list.
unfoldable pub count : ℕ → List ℕ → ℕ
count c [] = 0
count c (x ∷ xs) = let rest = count c xs in if x == c then suc rest else rest

pub count-append : (c : ℕ) (xs ys : List ℕ) → count c (xs ++ ys) ≡ count c xs + count c ys
unfolding count
count-append c [] ys = omega arith
count-append c (x ∷ xs) ys = ground (arith, count-append c xs ys)

-- The connection that an event of the waiting state accepts.
abbrev pub accepted_by : WaitEvent → List ℕ
accepted_by (conn c r) = c ∷ []
accepted_by _ = []

-- The states in which a round begins, with the connections accepted so far.
pub data Runs : List ℕ → ClientLoop → Type 0 where
  start : Runs [] new_client_loop
  wait :
      {a : List ℕ} {l m : ClientLoop} (e : WaitEvent)
      → Runs a l
      → l.state ≡ client_state_wait
      → wait_step l e ≡ next m
      → Runs (a ++ accepted_by e) m
  conn1 :
      {a : List ℕ} {l m : ClientLoop} (e : Conn1Event)
      → Runs a l
      → l.state ≡ client_state_conn1
      → conn1_step l e ≡ next m
      → Runs a m

abbrev pub pending : Option ℕ → List ℕ
pending none = []
pending (some c) = c ∷ []

abbrev pub PendingFits : ClientState → Option ℕ → Type 0
PendingFits client_state_wait o = o ≡ none
PendingFits client_state_conn1 o = (c : ℕ) × (o ≡ some c)

-- A connection is pending exactly while an answer is awaited, and every accepted connection is
-- pending, paired or closed, as often as it was accepted.
pub record Owned (a : List ℕ) (l : ClientLoop) : Type 0 where
  pub fits : PendingFits l.state l.pending_conn
  pub owned :
      (c : ℕ) → count c a ≡ count c l.paired + count c l.closed + count c (pending l.pending_conn)
  pub asked : length l.sent ≡ length a

next-injective : (l m : ClientLoop) → next l ≡ next m → l ≡ m
next-injective l m e = cc

not_returned : {P : Type 0} (l m : ClientLoop) (r : Outcome (Unit {0})) → returned l r ≡ next m → P
not_returned l m r e = absurd (cc)

none_pending :
    (l : ClientLoop)
    → PendingFits l.state l.pending_conn
    → l.state ≡ client_state_wait
    → l.pending_conn ≡ none
none_pending l f w = subst (λ s. PendingFits s l.pending_conn) w f

pub some_pending :
    (l : ClientLoop)
    → PendingFits l.state l.pending_conn
    → l.state ≡ client_state_conn1
    → (c : ℕ) × (l.pending_conn ≡ some c)
some_pending l f w = subst (λ s. PendingFits s l.pending_conn) w f

wait_step-Owned :
    (a : List ℕ) (l m : ClientLoop) (e : WaitEvent)
    → Owned a l
    → l.state ≡ client_state_wait
    → wait_step l e ≡ next m
    → Owned (a ++ accepted_by e) m
unfolding wait_step count
wait_step-Owned a l m (conn c (ok s)) o w q = rw (← next-injective _ m q) (record {
  fits = (c, refl);
  owned = λ d. ground (arith, count-append d a (c ∷ []), o.owned d, none_pending l o.fits w);
  asked = omega (
    arith,
    length-append a (c ∷ []),
    length-append l.sent (signal_of signal_connect ∷ []),
    o.asked,
  );
})
wait_step-Owned a l m (conn c (err s)) o w q = not_returned _ m _ q
wait_step-Owned a l m (conn c (panic s)) o w q = not_returned _ m _ q
wait_step-Owned a l m WaitEvent.dying o w q = not_returned _ m _ q
wait_step-Owned a l m WaitEvent.command_closed o w q = not_returned _ m _ q
wait_step-Owned a l m conn_closed o w q = not_returned _ m _ q
wait_step-Owned a l m (WaitEvent.command s) o w q = not_returned _ m _ q

agree_Owned :
    (a : List ℕ) (l : ClientLoop) (c : ℕ)
    → Owned a l
    → l.pending_conn ≡ some c
    → Owned a
        (record l { paired = l.paired ++ (c ∷ []); state = client_state_wait; pending_conn = none })
unfolding count
agree_Owned a l c o p = record {
  fits = refl;
  owned = λ d. ground (arith, count-append d l.paired (c ∷ []), o.owned d);
  asked = o.asked;
}

refuse_Owned :
    (a : List ℕ) (l : ClientLoop) (c : ℕ)
    → Owned a l
    → l.pending_conn ≡ some c
    → Owned a
        (record l { state = client_state_wait; closed = l.closed ++ (c ∷ []); pending_conn = none })
unfolding count
refuse_Owned a l c o p = record {
  fits = refl;
  owned = λ d. ground (arith, count-append d l.closed (c ∷ []), o.owned d);
  asked = o.asked;
}

-- The round that a signal makes while an answer is awaited.
conn1_command :
    (l : ClientLoop) (s : PortForwardSignal) (c : ℕ)
    → l.pending_conn ≡ some c
    → (conn1_step l (Conn1Event.command s)
        ≡ next (record l {
          paired = l.paired ++ (c ∷ []);
          state = client_state_wait;
          pending_conn = none;
        }))
      ⊎ (conn1_step l (Conn1Event.command s)
          ≡ next (record l {
            state = client_state_wait;
            closed = l.closed ++ (c ∷ []);
            pending_conn = none;
          }))
      ⊎ (conn1_step l (Conn1Event.command s)
          ≡ returned (record l { closed = l.closed ++ (c ∷ []) }) (ok tt))
unfolding conn1_step
conn1_command l s c p = elim (Bool-cases (s.kind == signal_connect_agree)) [
  | inl agree ↦ inl (ground arith)
  | inr no_agree ↦ elim (Bool-cases (s.kind == signal_connect_refuse)) [
    | inl refuse ↦ inr (inl (ground arith))
    | inr no_refuse ↦ inr (inr (ground arith))
  ]
]

conn1_step-Owned :
    (a : List ℕ) (l m : ClientLoop) (e : Conn1Event)
    → Owned a l
    → l.state ≡ client_state_conn1
    → conn1_step l e ≡ next m
    → Owned a m
conn1_step-Owned a l m Conn1Event.dying o w q = unfold conn1_step in not_returned _ m _ q
conn1_step-Owned a l m Conn1Event.command_closed o w q = unfold conn1_step in not_returned _ m _ q
conn1_step-Owned a l m (Conn1Event.command s) o w q =
    let (c, p) = some_pending l o.fits w in
    elim (conn1_command l s c p) [
      | inl e ↦ subst (Owned a) (next-injective _ m (sym e ∙ q)) (agree_Owned a l c o p)
      | inr rest ↦ elim rest [
        | inl e ↦ subst (Owned a) (next-injective _ m (sym e ∙ q)) (refuse_Owned a l c o p)
        | inr e ↦ not_returned _ m _ (sym e ∙ q)
      ]
    ]

-- In every run of the client loop, a connection is pending exactly while an answer is awaited; each
-- accepted connection has been paired or closed or is the pending one, as often as it was accepted;
-- and as many connect signals were sent as connections were accepted.
pub Runs-Owned : {a : List ℕ} {l : ClientLoop} → Runs a l → Owned a l
unfolding new_client_loop count
Runs-Owned start = record { fits = refl; owned = λ c. omega arith; asked = refl }
Runs-Owned (wait {a} {l} {m} e r w q) = wait_step-Owned a l m e (Runs-Owned r) w q
Runs-Owned (conn1 {a} {l} {m} e r w q) = conn1_step-Owned a l m e (Runs-Owned r) w q
