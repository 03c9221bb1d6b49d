-- ===== src/Pair/Punch.antt =====
-- udpTraverse of lib/pairconnect/conn_builder.go around its message loop: the sockets, the
-- registration, the last pong and the cancel message, which a deferred function sends. A context
-- that ends closes the socket, so that a read fails. What `json.Marshal` makes of a map of strings is
-- an argument, and so is the address of the socket. How many rounds of the
-- goroutines of sendPingPong fall before each read, and behind the cancel message, is an argument too.
pub mod Ends
pub mod Rounds
mod Examples
use pipie.Prelude.{
  ℕ, zero, suc, map, Bool, true, false, not, Option, none, some, List, [], ◌∷◌, ◌++◌, Bytes, text,
  Outcome, ok, err, panic,
}
use pipie.CommandLine.{split}
use pipie.Pair.Traverse.{
  Read, datagram, read_failed, Step, goes_on, ponged, returns, panics, Traverse, new_traverse,
  Connected, take_message, traverse_loop, finish, Sent, ping, pong, ping_pong_round,
}

-- A datagram with the address that it is sent to.
pub record Datagram : Type 0 where
  pub destination : Option Bytes
  pub payload : Bytes

-- What the calls of the net package give: the addresses of names, the local address of the first
-- socket, the errors of the others, what is read, and whether the cancel message goes out;
-- and the rounds of the ping goroutines, by the number of the read that they come before.
pub record PunchAnswers : Type 0 where
  pub resolve : Bytes → Option Bytes
  pub dialed : Outcome Bytes
  pub listen_error : Option Bytes
  pub register_error : Option Bytes
  pub reads : List Read
  pub reopen_error : Option Bytes
  pub cancel_goes_out : Bool
  pub rounds : ℕ → ℕ
  pub late_rounds : ℕ

abbrev quoted : Bytes → Bytes
quoted s = b'"' ∷ (s ++ (b'"' ∷ []))

-- The literal that the deferred function puts together.
unfoldable pub cancel_message : Bytes → Bytes
cancel_message pair_id =
    text "{"
    ++ (quoted (text "pairID")
        ++ (text ":"
            ++ (quoted pair_id ++ (text "," ++ (quoted (text "cancel") ++ text ":true}")))))

abbrev pub Entries : Type 0
Entries = List (Bytes × Bytes)

unfoldable pub from_peer_entries : Bytes → Bytes → Entries
from_peer_entries pair_id word = (text "fromPeer", word) ∷ ((text "pairID", pair_id) ∷ [])

-- How the function ends, `none` while it still reads, and what it and its goroutines have written.
pub record Punched : Type 0 where
  pub result : Option (Outcome Connected)
  pub written : List Datagram

abbrev sent_in : Option (List Sent) → List Sent
sent_in none = []
sent_in (some sent) = sent

abbrev pub round_to : Traverse → Option Bytes → List Sent
round_to t none = []
round_to t (some addr) = sent_in (ping_pong_round t.state addr t.last_addr2)

-- So many rounds of sendPingPong over one state.
unfoldable pub rounds_of : ℕ → Traverse → List Sent
unfolding ping_pong_round
rounds_of zero t = []
rounds_of (suc n) t = round_to t t.last_addr ++ rounds_of n t

module _ (resolve : Bytes → Option Bytes) where
  -- What the goroutines send while the loop reads, from the i-th read on.
  unfoldable pub loop_rounds : (ℕ → ℕ) → ℕ → List Read → Traverse → List Sent
  unfolding rounds_of take_message
  loop_rounds rounds i [] t = rounds_of (rounds i) t
  loop_rounds rounds i (read_failed e ∷ reads) t = rounds_of (rounds i) t
  loop_rounds rounds i (datagram message addr ∷ reads) t =
      rounds_of (rounds i) t ++ elim (take_message resolve t message addr) [
        | goes_on t' ↦ loop_rounds rounds (suc i) reads t'
        | ponged t' ↦ []
        | returns e ↦ []
        | panics e ↦ []
      ]

  -- The state that they find behind the loop.
  unfoldable pub last_state : List Read → Traverse → Traverse
  unfolding take_message
  last_state [] t = t
  last_state (read_failed e ∷ reads) t = t
  last_state (datagram message addr ∷ reads) t = elim (take_message resolve t message addr) [
    | goes_on t' ↦ last_state reads t'
    | ponged t' ↦ t'
    | returns e ↦ t
    | panics e ↦ t
  ]

module _ (marshal : Entries → Bytes) (pair_id : Bytes) where
  abbrev pub datagram_of : Sent → Datagram
  datagram_of (ping addr) = record {
    destination = some addr;
    payload = marshal (from_peer_entries pair_id (text "ping"));
  }
  datagram_of (pong addr) = record {
    destination = some addr;
    payload = marshal (from_peer_entries pair_id (text "pong"));
  }

  -- The part of the address before the first colon and the one behind it.
  unfoldable pub registration : List Bytes → Outcome Bytes
  registration (ip ∷ (port ∷ rest)) = ok (
      marshal (
        (text "pairID", pair_id)
        ∷ ((text "interfaceIP", ip) ∷ ((text "interfacePort", port) ∷ []))))
  registration _ = panic (text "index out of range")

module _ (marshal : Entries → Bytes) (pair_id server_address : Bytes) (a : PunchAnswers) where
  abbrev pub last_pong : Traverse → Datagram
  last_pong t = record {
    destination = t.last_addr;
    payload = marshal (from_peer_entries pair_id (text "pong"));
  }

  abbrev pub noise : List Datagram
  noise = map (datagram_of marshal pair_id) (loop_rounds a.resolve a.rounds 0 a.reads new_traverse)

  -- The context closes the socket behind the deferred function.
  abbrev pub late_noise : List Datagram
  late_noise =
      map (datagram_of marshal pair_id)
        (rounds_of a.late_rounds (last_state a.resolve a.reads new_traverse))

  -- The deferred function, unless the traversal is done.
  abbrev pub cancel_by : Bool → Bytes → List Datagram
  cancel_by true server =
      record { destination = some server; payload = cancel_message pair_id } ∷ []
  cancel_by false server = []

  -- Behind the loop the socket is opened again.
  abbrev pub reopened : Option Bytes → Bytes → Traverse → Punched
  reopened none server t = record {
    result = some (finish a.resolve none t);
    written = noise ++ (last_pong t ∷ []);
  }
  reopened (some e) server t = record {
    result = some (finish a.resolve (some e) t);
    written = (noise ++ (last_pong t ∷ [])) ++ (cancel_by a.cancel_goes_out server ++ late_noise);
  }

  abbrev pub after_loop : Bytes → Option (Outcome Traverse) → Punched
  after_loop server none = record { result = none; written = noise }
  after_loop server (some (ok t)) = reopened a.reopen_error server t
  after_loop server (some (err e)) = record {
    result = some (err e);
    written = noise ++ (cancel_by a.cancel_goes_out server ++ late_noise);
  }
  after_loop server (some (panic e)) = record {
    result = some (panic e);
    written = noise ++ (cancel_by a.cancel_goes_out server ++ late_noise);
  }

  abbrev pub with_registration : Bytes → Bytes → Punched → Punched
  with_registration server message rest = record {
    result = rest.result;
    written = record { destination = some server; payload = message } ∷ rest.written;
  }

  abbrev pub nothing_sent : Outcome Connected → Punched
  nothing_sent r = record { result = some r; written = [] }

  -- A registration that cannot be written is a panic before the deferred function is there.
  abbrev pub registered : Bytes → Option Bytes → Outcome Bytes → Punched
  registered server (some e) (ok message) = nothing_sent (panic e)
  registered server none (ok message) =
      with_registration server message
        (after_loop server (traverse_loop a.resolve a.reads new_traverse))
  registered server _ (err e) = nothing_sent (err e)
  registered server _ (panic e) = nothing_sent (panic e)

  abbrev pub listening : Bytes → Bytes → Option Bytes → Punched
  listening server local_addr (some e) = nothing_sent (err e)
  listening server local_addr none =
      registered server a.register_error (registration marshal pair_id (split b':' local_addr))

  abbrev pub dialing : Bytes → Outcome Bytes → Punched
  dialing server (err e) = nothing_sent (err e)
  dialing server (panic e) = nothing_sent (panic e)
  dialing server (ok local_addr) = listening server local_addr a.listen_error

  abbrev pub resolved : Option Bytes → Punched
  resolved none = nothing_sent (panic (text "ResolveUDPAddr"))
  resolved (some server) = dialing server a.dialed

  unfoldable pub udp_traverse : Punched
  unfolding registration cancel_message from_peer_entries split traverse_loop finish loop_rounds
      last_state rounds_of
  udp_traverse = resolved (a.resolve server_address)
