-- ===== src/Io/Forward/Accepting.antt =====
-- The goroutine of ForwardPortClient in lib/io/port_forward_client.go that accepts connections and
-- hands them to the client loop over a channel without a buffer, in any order of the steps of the two.
use mathlib.Core.Path.{subst}
use pipie.Prelude.{
  ℕ, ◌+◌, ◌≡◌, refl, sym, ap, ◌∙◌, List, [], ◌∷◌, ◌++◌, append-nil, Bytes, arith, Outcome, ok,
}
use pipie.Io.Forward.ClientLoop.{
  client_state_wait, client_state_conn1, ClientLoop, new_client_loop, WaitEvent, conn, Conn1Event,
  next, returned, wait_step, conn1_step,
}
use pipie.Io.Forward.Connections.{
  count, count-append, accepted_by, Runs, start, wait, conn1, pending, Runs-Owned,
}
use pipie.Io.Forward.Settled.{wait_step-leaves, conn1_step-settles}

-- It is at Accept, at the send of a connection, or has ended with an error and closed the channel.
-- Every error ends it, whatever its text.
pub data AcceptStage : Type 0 where
  at_accept : AcceptStage
  at_send : ℕ → AcceptStage
  ended : Bytes → AcceptStage

pub record Accepting : Type 0 where
  pub stage : AcceptStage
  pub accepted : List ℕ
  pub handed : List ℕ

abbrev pub new_accepting : Accepting
new_accepting = record { stage = at_accept; accepted = []; handed = [] }

-- What Accept returns.
unfoldable pub accept : Outcome ℕ → Accepting → Accepting
accept (ok c) g = record g { stage = at_send c; accepted = g.accepted ++ (c ∷ []) }
accept (Outcome.err e) g = record g { stage = ended e }
accept (Outcome.panic e) g = record g { stage = ended e }

-- The loop takes the connection.
unfoldable pub hand_over : ℕ → Accepting → Accepting
hand_over c g = record g { stage = at_accept; handed = g.handed ++ (c ∷ []) }

-- The states that the goroutine and the loop come to together. The select of the waiting state takes a
-- connection only from the goroutine, and goes on with nothing else.
pub data ClientRuns : Accepting → ClientLoop → Type 0 where
  begins : ClientRuns new_accepting new_client_loop
  accepts :
      {g : Accepting} {l : ClientLoop} (r : Outcome ℕ)
      → ClientRuns g l
      → g.stage ≡ at_accept
      → ClientRuns (accept r g) l
  takes :
      {g : Accepting} {l m : ClientLoop} (c : ℕ) (r : Outcome (Unit {0}))
      → ClientRuns g l
      → g.stage ≡ at_send c
      → l.state ≡ client_state_wait
      → wait_step l (conn c r) ≡ next m
      → ClientRuns (hand_over c g) m
  answered :
      {g : Accepting} {l m : ClientLoop} (e : Conn1Event)
      → ClientRuns g l
      → l.state ≡ client_state_conn1
      → conn1_step l e ≡ next m
      → ClientRuns g m

abbrev pub holding : AcceptStage → List ℕ
holding (at_send c) = c ∷ []
holding _ = []

record Handed (g : Accepting) (l : ClientLoop) : Type 0 where
  runs : Runs g.handed l
  all : g.accepted ≡ g.handed ++ holding g.stage

accept-all :
    (r : Outcome ℕ) (g : Accepting)
    → g.stage ≡ at_accept
    → g.accepted ≡ g.handed ++ holding g.stage
    → (accept r g).accepted ≡ (accept r g).handed ++ holding (accept r g).stage
unfolding accept
accept-all (ok c) g free q =
    ap (λ l. l ++ (c ∷ [])) (q ∙ ap (λ s. g.handed ++ holding s) free ∙ append-nil g.handed)
accept-all (Outcome.err e) g free q = q ∙ ap (λ s. g.handed ++ holding s) free
accept-all (Outcome.panic e) g free q = q ∙ ap (λ s. g.handed ++ holding s) free

accept-handed : (r : Outcome ℕ) (g : Accepting) → (accept r g).handed ≡ g.handed
unfolding accept
accept-handed (ok c) g = refl
accept-handed (Outcome.err e) g = refl
accept-handed (Outcome.panic e) g = refl

ClientRuns-Handed : {g : Accepting} {l : ClientLoop} → ClientRuns g l → Handed g l
unfolding hand_over
ClientRuns-Handed begins = record { runs = start; all = refl }
ClientRuns-Handed {l = l} (accepts {g} r before free) =
    let h = ClientRuns-Handed before in
    record {
      runs = subst (λ a. Runs a l) (sym (accept-handed r g)) h.runs;
      all = accept-all r g free h.all;
    }
ClientRuns-Handed (takes {g} c r before holds waits q) =
    let h = ClientRuns-Handed before in
    record {
      runs = wait (conn c r) h.runs waits q;
      all = h.all ∙ ap (λ s. g.handed ++ holding s) holds ∙ sym (append-nil (g.handed ++ (c ∷ [])));
    }
ClientRuns-Handed (answered e before waits q) =
    let h = ClientRuns-Handed before in record { runs = conn1 e h.runs waits q; all = h.all }

-- The loop goes on, or it has returned, and the goroutine may accept another connection then. The
-- list holds the connections that are neither paired nor closed and that the goroutine does not hold:
-- the one that awaits the server's answer, or one that was taken and for which SendSignal failed.
pub data ClientLasts : Accepting → ClientLoop → List ℕ → Type 0 where
  goes_on :
      {g : Accepting} {l : ClientLoop} → ClientRuns g l → ClientLasts g l (pending l.pending_conn)
  loses :
      {g : Accepting} {l m : ClientLoop} {x : Outcome (Unit {0})} (c : ℕ) (r : Outcome (Unit {0}))
      → ClientRuns g l
      → g.stage ≡ at_send c
      → l.state ≡ client_state_wait
      → wait_step l (conn c r) ≡ returned m x
      → ClientLasts (hand_over c g) m (c ∷ [])
  leaves_wait :
      {g : Accepting} {l m : ClientLoop} {x : Outcome (Unit {0})} (e : WaitEvent)
      → ClientRuns g l
      → l.state ≡ client_state_wait
      → accepted_by e ≡ []
      → wait_step l e ≡ returned m x
      → ClientLasts g m []
  leaves_conn1 :
      {g : Accepting} {l m : ClientLoop} {x : Outcome (Unit {0})} (e : Conn1Event)
      → ClientRuns g l
      → l.state ≡ client_state_conn1
      → conn1_step l e ≡ returned m x
      → ClientLasts g m []
  still_accepts :
      {g : Accepting} {l : ClientLoop} {rest : List ℕ} (r : Outcome ℕ)
      → ClientLasts g l rest
      → g.stage ≡ at_accept
      → ClientLasts (accept r g) l rest

record Settles (g : Accepting) (l : ClientLoop) (rest : List ℕ) : Type 0 where
  all : g.accepted ≡ g.handed ++ holding g.stage
  parts : (c : ℕ) → count c g.handed ≡ count c l.paired + count c l.closed + count c rest

ClientLasts-Settles :
    {g : Accepting} {l : ClientLoop} {rest : List ℕ} → ClientLasts g l rest → Settles g l rest
unfolding hand_over count
ClientLasts-Settles (goes_on runs) =
    let h = ClientRuns-Handed runs in
    record { all = h.all; parts = λ c. (Runs-Owned h.runs).owned c }
ClientLasts-Settles (loses {g} {l} {m} {x} c r runs holds waits q) =
    let h = ClientRuns-Handed runs in
    record {
      all = h.all ∙ ap (λ s. g.handed ++ holding s) holds ∙ sym (append-nil (g.handed ++ (c ∷ [])));
      parts = λ d. omega (
        arith,
        count-append d g.handed (c ∷ []),
        wait_step-leaves g.handed l m x (conn c r) d (Runs-Owned h.runs) q,
      );
    }
ClientLasts-Settles (leaves_wait {g} {l} {m} {x} e runs waits none_taken q) =
    let h = ClientRuns-Handed runs in
    record {
      all = h.all;
      parts = λ d. omega (arith, wait_step-leaves g.handed l m x e d (Runs-Owned h.runs) q);
    }
ClientLasts-Settles (leaves_conn1 {g} {l} {m} {x} e runs waits q) =
    let h = ClientRuns-Handed runs in
    record {
      all = h.all;
      parts = λ d. omega (arith, conn1_step-settles g.handed l m x e d (Runs-Owned h.runs) waits q);
    }
ClientLasts-Settles {l = l} {rest = rest} (still_accepts {g} r before free) =
    let h = ClientLasts-Settles before in
    record {
      all = accept-all r g free h.all;
      parts =
          subst (λ a. (c : ℕ) → count c a ≡ count c l.paired + count c l.closed + count c rest)
            (sym (accept-handed r g)) h.parts;
    }

-- In every order of the steps of the two, also when the loop has returned: each connection that was
-- accepted is, as often as it was, paired, closed, the one that the goroutine holds at its send, or
-- the one that is left: while the loop goes on, the one that awaits the server's answer, and once it
-- has returned, the one for which SendSignal failed, if the loop returned for that.
pub ClientLasts-count :
    (g : Accepting) (l : ClientLoop) (rest : List ℕ) (c : ℕ)
    → ClientLasts g l rest
    → count c g.accepted
      ≡ count c l.paired + count c l.closed + count c rest + count c (holding g.stage)
ClientLasts-count g l rest c lasts =
    let h = ClientLasts-Settles lasts in
    ap (count c) h.all ∙ omega (arith, h.parts c, count-append c g.handed (holding g.stage))
