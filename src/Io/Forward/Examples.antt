-- ===== src/Io/Forward/Examples.antt =====
-- Instances of the theorems on the loops of a port forward.
use pipie.Prelude.{suc, ◌≡◌, ◌⊎◌, ◌+◌, refl, none, some, [], ◌∷◌, length, ok, err}
use pipie.Io.Forward.Signal.{signal_of, signal_connect, signal_connect_agree}
use pipie.Io.Forward.ClientLoop.{
  client_state_wait, client_state_conn1, ClientLoop, new_client_loop, conn, Conn1Event, next,
  wait_step, conn1_step, leave, close_pending,
}
use pipie.Io.Forward.ServerLoop.{new_server_loop, go_pairing, dialed, server_step, answer_connect}
use pipie.Io.Forward.Accepting.{
  new_accepting, accept, hand_over, ClientRuns, begins, accepts, takes, answered, ClientLasts,
  loses, leaves_conn1, ClientLasts-count,
}
use pipie.Io.Forward.Connections.{count, Runs, start, wait, conn1}
use pipie.Io.Forward.Settled.{Ends, from_conn1, Ends-settled}
use pipie.Io.Forward.Protocol.{
  System, Reachable, client_accepts, client_reads, server_reads, server_pairs, agreements, step,
}
use pipie.Io.Forward.InStep.{Reachable-answered, Reachable-pairings}

-- The client loop while it awaits the answer to its first connection.
abbrev one_asked : ClientLoop
one_asked = record {
  state = client_state_conn1;
  pending_conn = some 7;
  sent = signal_of signal_connect ∷ [];
  paired = [];
  closed = [];
}

-- The client loop after its first connection was agreed to.
abbrev one_paired : ClientLoop
one_paired = record {
  state = client_state_wait;
  pending_conn = none;
  sent = signal_of signal_connect ∷ [];
  paired = 7 ∷ [];
  closed = [];
}

abbrev two_asked : ClientLoop
two_asked = record {
  state = client_state_conn1;
  pending_conn = some 8;
  sent = signal_of signal_connect ∷ signal_of signal_connect ∷ [];
  paired = 7 ∷ [];
  closed = [];
}

abbrev two_left : ClientLoop
two_left = record two_asked { closed = 8 ∷ [] }

one_asked-Runs : Runs (7 ∷ []) one_asked
unfolding new_client_loop wait_step
one_asked-Runs = wait (conn 7 (ok tt)) start refl refl

two_asked-Runs : Runs (7 ∷ 8 ∷ []) two_asked
unfolding wait_step conn1_step
two_asked-Runs =
    wait (conn 8 (ok tt))
      (conn1 (Conn1Event.command (signal_of signal_connect_agree)) one_asked-Runs refl refl) refl
      refl

two_left-Ends : Ends (7 ∷ 8 ∷ []) two_left (ok tt)
unfolding conn1_step leave close_pending
two_left-Ends = from_conn1 Conn1Event.dying two_asked-Runs refl refl

Ends-settled_example : count 8 (7 ∷ 8 ∷ []) ≡ count 8 two_left.paired + count 8 two_left.closed
Ends-settled_example = Ends-settled two_left-Ends refl 8

-- The system with a connect signal under way, and with the agreement to it under way.
abbrev asking : System
asking = record {
  client = one_asked;
  server = new_server_loop;
  to_server = signal_of signal_connect ∷ [];
  to_client = [];
}

abbrev agreeing : System
agreeing = record {
  client = one_asked;
  server = record { sent = signal_of signal_connect_agree ∷ []; paired = []; agreed = some 3 };
  to_server = [];
  to_client = signal_of signal_connect_agree ∷ [];
}

abbrev paired : System
paired = record agreeing { client = one_paired; to_client = [] }

asking-Reachable : Reachable asking
unfolding new_client_loop wait_step
asking-Reachable =
    step Reachable.start (client_accepts 7 (signal_of signal_connect ∷ []) refl refl refl)

agreeing-Reachable : Reachable agreeing
unfolding server_step answer_connect
agreeing-Reachable = step asking-Reachable (
    server_reads (signal_of signal_connect) [] (signal_of signal_connect_agree ∷ []) (dialed 3) refl
      refl refl refl)

paired-Reachable : Reachable paired
unfolding conn1_step
paired-Reachable =
    step agreeing-Reachable (client_reads (signal_of signal_connect_agree) [] refl refl refl)

-- The pairing may be started behind the client's.
both_paired-Reachable : Reachable (record paired { server = go_pairing paired.server })
both_paired-Reachable = step paired-Reachable (server_pairs 3 refl)

Reachable-answered_example :
    (m : ClientLoop) × (conn1_step agreeing.client
        (Conn1Event.command (signal_of signal_connect_agree))
      ≡ next m)
Reachable-answered_example =
    Reachable-answered (signal_of signal_connect_agree) [] agreeing-Reachable refl refl

Reachable-pairings_example :
    (length (agreements agreeing.server) ≡ length agreeing.client.paired)
    ⊎ ((length (agreements agreeing.server) ≡ suc (length agreeing.client.paired))
        × (agreeing.to_client ≡ signal_of signal_connect_agree ∷ []))
Reachable-pairings_example = Reachable-pairings agreeing-Reachable

-- Three connections are accepted: one is paired, one awaits its answer, and one waits for the loop.
three_accepted :
    ClientRuns
      (accept (ok 9) (hand_over 8 (accept (ok 8) (hand_over 7 (accept (ok 7) new_accepting)))))
      two_asked
unfolding accept hand_over new_client_loop wait_step conn1_step
three_accepted =
    accepts (ok 9)
      (takes 8 (ok tt)
        (accepts (ok 8)
          (answered (Conn1Event.command (signal_of signal_connect_agree))
            (takes {m = one_asked} 7 (ok tt) (accepts (ok 7) begins refl) refl refl refl) refl refl)
          refl)
        refl refl refl)
      refl

-- The loop is told to end while it awaits the answer, and a connection is held at the send.
three_left :
    ClientLasts
      (accept (ok 9) (hand_over 8 (accept (ok 8) (hand_over 7 (accept (ok 7) new_accepting)))))
      two_left
      []
unfolding conn1_step leave close_pending
three_left = leaves_conn1 Conn1Event.dying three_accepted refl refl

-- A connection that is taken while SendSignal fails.
one_lost : ClientLasts (hand_over 7 (accept (ok 7) new_accepting)) new_client_loop (7 ∷ [])
unfolding accept new_client_loop wait_step leave close_pending
one_lost = loses 7 (err []) (accepts (ok 7) begins refl) refl refl refl

ClientLasts-count_example : count 9 (7 ∷ 8 ∷ 9 ∷ []) ≡ 1
unfolding accept hand_over count
ClientLasts-count_example = ClientLasts-count _ two_left [] 9 three_left
