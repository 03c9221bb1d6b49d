-- ===== src/Io/Forward/InStep.antt =====
-- How the two loops of a port forward stand to one another between rounds.
use mathlib.Core.Path.{subst}
use pipie.Prelude.{
  ℕ, suc, ◌≡◌, refl, sym, ◌∙◌, ◌⊎◌, inl, inr, Bool, none, some, List, [], ◌∷◌, ◌++◌, length, arith,
}
use pipie.Io.Forward.Signal.{PortForwardSignal, signal_of, signal_connect_agree}
use pipie.Io.Forward.ClientLoop.{
  client_state_wait, client_state_conn1, ClientLoop, Conn1Event, next, conn1_step,
}
use pipie.Io.Forward.ServerLoop.{refusal_of}
use pipie.Io.Forward.Connections.{Runs-Owned, some_pending}
use pipie.Io.Forward.Protocol.{System, agreements, Reachable, Phase, idle, asked, agreed, refused}
use pipie.Io.Forward.Phases.{Reachable-Sound, state_clash, empty_clash, cons_parts}

agreed_goes_on :
    (l : ClientLoop)
    → (m : ClientLoop) × (conn1_step l (Conn1Event.command (signal_of signal_connect_agree))
        ≡ next m)
unfolding conn1_step
agreed_goes_on l = (_, refl)

refused_goes_on :
    (l : ClientLoop) (c : ℕ) (timeout : Bool)
    → l.pending_conn ≡ some c
    → (m : ClientLoop) × (conn1_step l (Conn1Event.command (refusal_of timeout)) ≡ next m)
unfolding conn1_step
refused_goes_on l c timeout p = (
  record l { state = client_state_wait; closed = l.closed ++ (c ∷ []); pending_conn = none },
  ground arith,
)

-- The answer that is under way is one that the waiting client handles.
Phase-answers :
    (s : System) (signal : PortForwardSignal) (rest : List PortForwardSignal) (c : ℕ)
    → Phase s
    → s.client.pending_conn ≡ some c
    → s.to_client ≡ signal ∷ rest
    → (m : ClientLoop) × (conn1_step s.client (Conn1Event.command signal) ≡ next m)
Phase-answers s signal rest c (idle w a b n) p r = empty_clash b r
Phase-answers s signal rest c (asked w a b n) p r = empty_clash b r
Phase-answers s signal rest c (agreed w a b n) p r =
    let (is_agree, none_left) = cons_parts (sym b ∙ r) in
    let (m, e) = agreed_goes_on s.client in
    (m, subst (λ x. conn1_step s.client (Conn1Event.command x) ≡ next m) (sym is_agree) e)
Phase-answers s signal rest c (refused t w a b n) p r =
    let (is_refusal, none_left) = cons_parts (sym b ∙ r) in
    let (m, e) = refused_goes_on s.client c t p in
    (m, subst (λ x. conn1_step s.client (Conn1Event.command x) ≡ next m) (sym is_refusal) e)

Phase-unasked : (s : System) → Phase s → s.client.state ≡ client_state_wait → s.to_client ≡ []
Phase-unasked s (idle w a b n) v = b
Phase-unasked s (asked w a b n) v = state_clash v w
Phase-unasked s (agreed w a b n) v = state_clash v w
Phase-unasked s (refused t w a b n) v = state_clash v w

Phase-pairings :
    (s : System)
    → Phase s
    → (length (agreements s.server) ≡ length s.client.paired)
      ⊎ ((length (agreements s.server) ≡ suc (length s.client.paired))
          × (s.to_client ≡ signal_of signal_connect_agree ∷ []))
Phase-pairings s (idle w a b n) = inl n
Phase-pairings s (asked w a b n) = inl n
Phase-pairings s (agreed w a b n) = inr (n, b)
Phase-pairings s (refused t w a b n) = inl n

-- In every reachable state of the two loops in which the client awaits no answer, none is under way.
Reachable-unasked :
    {s : System} → Reachable s → s.client.state ≡ client_state_wait → s.to_client ≡ []
Reachable-unasked {s} r w = Phase-unasked s (Reachable-Sound r).phase w

-- In every reachable state of the two loops in which the client awaits an answer, whatever signal
-- is the next to reach it lets its loop go on: it neither returns nor panics.
pub Reachable-answered :
    {s : System} (signal : PortForwardSignal) (rest : List PortForwardSignal)
    → Reachable s
    → s.client.state ≡ client_state_conn1
    → s.to_client ≡ signal ∷ rest
    → (m : ClientLoop) × (conn1_step s.client (Conn1Event.command signal) ≡ next m)
Reachable-answered {s} signal rest r w e =
    let h = Reachable-Sound r in
    let (c, p) = some_pending s.client (Runs-Owned h.runs).fits w in
    Phase-answers s signal rest c h.phase p e

-- In every reachable state of the two loops, the server has agreed to as many connections as the
-- client has started pairings, or to one more, and then the only signal under way to the client is
-- the agreement to it. The connections that the server has agreed to are those whose pairing it has
-- started and, between an agreement and its pairing, the one that it starts next.
pub Reachable-pairings :
    {s : System}
    → Reachable s
    → (length (agreements s.server) ≡ length s.client.paired)
      ⊎ ((length (agreements s.server) ≡ suc (length s.client.paired))
          × (s.to_client ≡ signal_of signal_connect_agree ∷ []))
Reachable-pairings {s} r = Phase-pairings s (Reachable-Sound r).phase
