-- ===== src/Io/Forward/Protocol.antt =====
-- The two loops of a port forward over one command channel: any order of their rounds.

use pipie.Prelude.{ℕ, suc, ◌≡◌, Bool, Option, none, some, List, [], ◌∷◌, ◌++◌, length, ok}
use pipie.Io.Forward.Signal.{PortForwardSignal, signal_of, signal_connect, signal_connect_agree}
use pipie.Io.Forward.ClientLoop.{
  client_state_wait, client_state_conn1, ClientLoop, new_client_loop, Conn1Event, conn, next,
  wait_step, conn1_step,
}
use pipie.Io.Forward.ServerLoop.{
  ServerLoop, new_server_loop, go_pairing, Dial, command, refusal_of, server_step,
}

abbrev to_list : Option ℕ → List ℕ
to_list none = []
to_list (some c) = c ∷ []

-- The loops, and the signals that are under way each way, oldest first.
pub record System : Type 0 where
  pub client : ClientLoop
  pub server : ServerLoop
  pub to_server : List PortForwardSignal
  pub to_client : List PortForwardSignal

abbrev pub new_system : System
new_system = record {
  client = new_client_loop;
  server = new_server_loop;
  to_server = [];
  to_client = [];
}

-- A round of a loop that goes on: what it sends is put under way. The dial may come out either way.
-- Between the agreement and the start of its pairing the client may already have read the agreement.
pub data Move (s : System) : System → Type 0 where
  client_accepts :
      {m : ClientLoop} (c : ℕ) (out : List PortForwardSignal)
      → s.client.state ≡ client_state_wait
      → wait_step s.client (conn c (ok tt)) ≡ next m
      → m.sent ≡ s.client.sent ++ out
      → Move s (record s { client = m; to_server = s.to_server ++ out })
  client_reads :
      {m : ClientLoop} (signal : PortForwardSignal) (rest : List PortForwardSignal)
      → s.client.state ≡ client_state_conn1
      → s.to_client ≡ signal ∷ rest
      → conn1_step s.client (Conn1Event.command signal) ≡ next m
      → Move s (record s { client = m; to_client = rest })
  server_reads :
      {m : ServerLoop} (signal : PortForwardSignal) (rest out : List PortForwardSignal)
      (dial : Dial)
      → s.server.agreed ≡ none
      → s.to_server ≡ signal ∷ rest
      → server_step s.server (command signal dial (ok tt)) ≡ next m
      → m.sent ≡ s.server.sent ++ out
      → Move s (record s { server = m; to_server = rest; to_client = s.to_client ++ out })
  server_pairs :
      (c : ℕ) → s.server.agreed ≡ some c → Move s (record s { server = go_pairing s.server })

-- The connections that the server has agreed to: their pairing is started, or about to be.
unfoldable pub agreements : ServerLoop → List ℕ
agreements l = l.paired ++ to_list l.agreed

pub data Reachable : System → Type 0 where
  start : Reachable new_system
  step : {s t : System} → Reachable s → Move s t → Reachable t

-- The four phases that the pair of loops goes through.
pub data Phase (s : System) : Type 0 where
  idle :
      s.client.state ≡ client_state_wait
      → s.to_server ≡ []
      → s.to_client ≡ []
      → length (agreements s.server) ≡ length s.client.paired
      → Phase s
  asked :
      s.client.state ≡ client_state_conn1
      → s.to_server ≡ signal_of signal_connect ∷ []
      → s.to_client ≡ []
      → length (agreements s.server) ≡ length s.client.paired
      → Phase s
  agreed :
      s.client.state ≡ client_state_conn1
      → s.to_server ≡ []
      → s.to_client ≡ signal_of signal_connect_agree ∷ []
      → length (agreements s.server) ≡ suc (length s.client.paired)
      → Phase s
  refused :
      (timeout : Bool)
      → s.client.state ≡ client_state_conn1
      → s.to_server ≡ []
      → s.to_client ≡ refusal_of timeout ∷ []
      → length (agreements s.server) ≡ length s.client.paired
      → Phase s
