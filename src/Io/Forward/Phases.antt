-- ===== src/Io/Forward/Phases.antt =====
-- The phases that the two loops of a port forward go through.
use mathlib.Core.Path.{subst}
use pipie.Prelude.{
  ℕ, suc, ◌≡◌, refl, sym, ap, ◌∙◌, Bool, none, some, List, [], ◌∷◌, ◌++◌, length, length-append,
  append-nil, arith, ok,
}
use pipie.Io.Forward.Signal.{PortForwardSignal, signal_of, signal_connect, signal_connect_agree}
use pipie.Io.Forward.ClientLoop.{
  ClientState, client_state_wait, client_state_conn1, ClientLoop, new_client_loop, Conn1Event, conn,
  next, wait_step, conn1_step,
}
use pipie.Io.Forward.ServerLoop.{
  ServerLoop, go_pairing, answer_connect, Dial, dialed, dial_failed, command, refusal_of,
  server_step,
}
use pipie.Io.Forward.Connections.{Runs, Runs-Owned, some_pending}
use pipie.Io.Forward.Protocol.{
  System, Move, client_accepts, client_reads, server_reads, server_pairs, agreements, Reachable,
  start, step, Phase, idle, asked, agreed, refused,
}

append_cancel : {A : Type 0} (xs ys zs : List A) → xs ++ ys ≡ xs ++ zs → ys ≡ zs
append_cancel [] ys zs e = e
append_cancel {A} (x ∷ xs) ys zs e = append_cancel xs ys zs (ap tail_of e)
  where
    tail_of : List A → List A
    tail_of [] = []
    tail_of (x ∷ xs) = xs

pub state_clash :
    {P : Type 0} {s : ClientState} → s ≡ client_state_wait → s ≡ client_state_conn1 → P
state_clash a b = absurd (cc)

pub empty_clash :
    {P : Type 0} {x : PortForwardSignal} {xs l : List PortForwardSignal} → l ≡ [] → l ≡ x ∷ xs → P
empty_clash a b = absurd (cc)

pub cons_parts :
    {x y : PortForwardSignal} {xs ys : List PortForwardSignal}
    → x ∷ xs ≡ y ∷ ys
    → (y ≡ x) × (ys ≡ xs)
cons_parts e = (cc, cc)

-- What the rounds do, field by field.
accepts_lem :
    (l m : ClientLoop) (c : ℕ)
    → wait_step l (conn c (ok tt)) ≡ next m
    → (m.state ≡ client_state_conn1)
      × (m.sent ≡ l.sent ++ (signal_of signal_connect ∷ []))
      × (m.paired ≡ l.paired)
unfolding wait_step
accepts_lem l m c q = ground arith

agrees_lem :
    (l m : ClientLoop) (c : ℕ)
    → l.pending_conn ≡ some c
    → conn1_step l (Conn1Event.command (signal_of signal_connect_agree)) ≡ next m
    → (m.state ≡ client_state_wait) × (m.paired ≡ l.paired ++ (c ∷ []))
unfolding conn1_step
agrees_lem l m c p q = ground arith

refuses_lem :
    (l m : ClientLoop) (c : ℕ) (timeout : Bool)
    → l.pending_conn ≡ some c
    → conn1_step l (Conn1Event.command (refusal_of timeout)) ≡ next m
    → (m.state ≡ client_state_wait) × (m.paired ≡ l.paired)
unfolding conn1_step
refuses_lem l m c timeout p q = ground arith

dialed_lem :
    (l m : ServerLoop) (c : ℕ)
    → server_step l (command (signal_of signal_connect) (dialed c) (ok tt)) ≡ next m
    → (m.sent ≡ l.sent ++ (signal_of signal_connect_agree ∷ []))
      × (m.paired ≡ l.paired)
      × (m.agreed ≡ some c)
unfolding server_step answer_connect
dialed_lem l m c q = ground arith

dial_failed_lem :
    (l m : ServerLoop) (timeout : Bool)
    → server_step l (command (signal_of signal_connect) (dial_failed timeout) (ok tt)) ≡ next m
    → (m.sent ≡ l.sent ++ (refusal_of timeout ∷ [])) × (m.paired ≡ l.paired) × (m.agreed ≡ l.agreed)
unfolding server_step answer_connect
dial_failed_lem l m timeout q = ground arith

agreed-agreements :
    (l m : ServerLoop) (c : ℕ)
    → l.agreed ≡ none
    → m.paired ≡ l.paired
    → m.agreed ≡ some c
    → agreements m ≡ agreements l ++ (c ∷ [])
unfolding agreements
agreed-agreements l m c e p a = rw (e, p, a, append-nil) refl

same-agreements :
    (l m : ServerLoop) → m.paired ≡ l.paired → m.agreed ≡ l.agreed → agreements m ≡ agreements l
unfolding agreements
same-agreements l m p a = rw (p, a) refl

-- The start of a pairing is the one that was agreed to.
go_pairing-agreements :
    (l : ServerLoop) (c : ℕ) → l.agreed ≡ some c → agreements (go_pairing l) ≡ agreements l
unfolding agreements go_pairing
go_pairing-agreements l c e = rw e (append-nil (l.paired ++ (c ∷ [])))

one_more : (xs : List ℕ) (c : ℕ) → length (xs ++ (c ∷ [])) ≡ suc (length xs)
one_more xs c = omega (arith, length-append xs (c ∷ []))

accept-Phase :
    (s : System) (m : ClientLoop) (c : ℕ) (out : List PortForwardSignal)
    → Phase s
    → s.client.state ≡ client_state_wait
    → wait_step s.client (conn c (ok tt)) ≡ next m
    → m.sent ≡ s.client.sent ++ out
    → Phase (record s { client = m; to_server = s.to_server ++ out })
accept-Phase s m c out (idle w a b n) v q o =
    let (state, sent, paired) = accepts_lem s.client m c q in
    let same : out ≡ signal_of signal_connect ∷ [] =
      append_cancel s.client.sent _ _ (sym o ∙ sent) in
    asked state (rw (a, same)) b (n ∙ ap length (sym paired))
accept-Phase s m c out (asked w a b n) v q o = state_clash v w
accept-Phase s m c out (agreed w a b n) v q o = state_clash v w
accept-Phase s m c out (refused t w a b n) v q o = state_clash v w

serve-Phase :
    (s : System) (m : ServerLoop) (signal : PortForwardSignal) (rest out : List PortForwardSignal)
    (dial : Dial)
    → Phase s
    → s.server.agreed ≡ none
    → s.to_server ≡ signal ∷ rest
    → server_step s.server (command signal dial (ok tt)) ≡ next m
    → m.sent ≡ s.server.sent ++ out
    → Phase (record s { server = m; to_server = rest; to_client = s.to_client ++ out })
serve-Phase s m signal rest out dial (idle w a b n) g r q o = empty_clash a r
serve-Phase s m signal rest out dial (agreed w a b n) g r q o = empty_clash a r
serve-Phase s m signal rest out dial (refused t w a b n) g r q o = empty_clash a r
serve-Phase s m signal rest out (dialed c) (asked w a b n) g r q o =
    let (is_connect, none_left) = cons_parts (sym a ∙ r) in
    let (sent, paired, pending) =
      dialed_lem s.server m c
        (subst (λ x. server_step s.server (command x (dialed c) (ok tt)) ≡ next m) is_connect q) in
    let same = append_cancel s.server.sent _ _ (sym o ∙ sent) in
    agreed w none_left (rw (b, same)) (
      ap length (agreed-agreements s.server m c g paired pending)
      ∙ one_more (agreements s.server) c
      ∙ ap suc n)
serve-Phase s m signal rest out (dial_failed t) (asked w a b n) g r q o =
    let (is_connect, none_left) = cons_parts (sym a ∙ r) in
    let (sent, paired, pending) = dial_failed_lem s.server m t (
      subst (λ x. server_step s.server (command x (dial_failed t) (ok tt)) ≡ next m) is_connect
        q) in
    let same = append_cancel s.server.sent _ _ (sym o ∙ sent) in
    refused t w none_left (rw (b, same)) (ap length (same-agreements s.server m paired pending) ∙ n)

pair-Phase :
    (s : System) (c : ℕ)
    → Phase s
    → s.server.agreed ≡ some c
    → Phase (record s { server = go_pairing s.server })
pair-Phase s c (idle w a b n) g = idle w a b (ap length (go_pairing-agreements s.server c g) ∙ n)
pair-Phase s c (asked w a b n) g = asked w a b (ap length (go_pairing-agreements s.server c g) ∙ n)
pair-Phase s c (agreed w a b n) g =
    agreed w a b (ap length (go_pairing-agreements s.server c g) ∙ n)
pair-Phase s c (refused t w a b n) g =
    refused t w a b (ap length (go_pairing-agreements s.server c g) ∙ n)

answer-Phase :
    (s : System) (m : ClientLoop) (signal : PortForwardSignal) (rest : List PortForwardSignal)
    (c : ℕ)
    → Phase s
    → s.client.pending_conn ≡ some c
    → s.client.state ≡ client_state_conn1
    → s.to_client ≡ signal ∷ rest
    → conn1_step s.client (Conn1Event.command signal) ≡ next m
    → Phase (record s { client = m; to_client = rest })
answer-Phase s m signal rest c (idle w a b n) p v r q = empty_clash b r
answer-Phase s m signal rest c (asked w a b n) p v r q = empty_clash b r
answer-Phase s m signal rest c (agreed w a b n) p v r q =
    let (is_agree, none_left) = cons_parts (sym b ∙ r) in
    let (state, paired) =
      agrees_lem s.client m c p
        (subst (λ x. conn1_step s.client (Conn1Event.command x) ≡ next m) is_agree q) in
    idle state a none_left (n ∙ sym (one_more s.client.paired c) ∙ ap length (sym paired))
answer-Phase s m signal rest c (refused t w a b n) p v r q =
    let (is_refusal, none_left) = cons_parts (sym b ∙ r) in
    let (state, paired) =
      refuses_lem s.client m c t p
        (subst (λ x. conn1_step s.client (Conn1Event.command x) ≡ next m) is_refusal q) in
    idle state a none_left (n ∙ ap length (sym paired))

-- The phase, and that the client is in a run of its own.
pub record Sound (s : System) : Type 0 where
  pub phase : Phase s
  pub accepted : List ℕ
  pub runs : Runs accepted s.client

Move-Sound : {s t : System} → Move s t → Sound s → Sound t
Move-Sound {s} (client_accepts {m} c out w q o) h = record {
  phase = accept-Phase s m c out h.phase w q o;
  accepted = h.accepted ++ (c ∷ []);
  runs = Runs.wait (conn c (ok tt)) h.runs w q;
}
Move-Sound {s} (client_reads {m} signal rest w r q) h =
    let (c, p) = some_pending s.client (Runs-Owned h.runs).fits w in
    record {
      phase = answer-Phase s m signal rest c h.phase p w r q;
      accepted = h.accepted;
      runs = Runs.conn1 (Conn1Event.command signal) h.runs w q;
    }
Move-Sound {s} (server_reads {m} signal rest out dial g r q o) h = record {
  phase = serve-Phase s m signal rest out dial h.phase g r q o;
  accepted = h.accepted;
  runs = h.runs;
}
Move-Sound {s} (server_pairs c g) h = record {
  phase = pair-Phase s c h.phase g;
  accepted = h.accepted;
  runs = h.runs;
}

pub Reachable-Sound : {s : System} → Reachable s → Sound s
unfolding new_client_loop agreements
Reachable-Sound start = record {
  phase = idle refl refl refl refl;
  accepted = [];
  runs = Runs.start;
}
Reachable-Sound (step r m) = Move-Sound m (Reachable-Sound r)
