-- ===== src/Pair/Punch/Ends.antt =====
-- What a UDP traversal has written when it ends, and to whom it connects.
use pipie.Prelude.{◌⊎◌, All, ◌≡◌, some, List, [], ◌∷◌, ◌++◌, Bytes, text, Outcome, ok, IsFailure}
use pipie.CommandLine.{split}
use pipie.Pair.Traverse.{Traverse, Connected}
use pipie.Pair.TraverseConnects.{Heard}
use pipie.Pair.Punch.{
  Datagram, PunchAnswers, Entries, Punched, cancel_message, from_peer_entries, registration,
}

module _ (marshal : Entries → Bytes) (pair_id server_address : Bytes) (a : PunchAnswers) where
  -- The server's address, and what the local address of the first socket is registered as.
  abbrev Registers : Bytes → Bytes → Type 0
  Registers server message =
      (a.resolve server_address ≡ some server)
      × ((local_addr : Bytes) × ((a.dialed ≡ ok local_addr)
            × (registration marshal pair_id (split b':' local_addr) ≡ ok message)))

  -- A ping or a pong.
  abbrev pub IsPing : Datagram → Type 0
  IsPing d =
      (d.payload ≡ marshal (from_peer_entries pair_id (text "ping")))
      ⊎ (d.payload ≡ marshal (from_peer_entries pair_id (text "pong")))

  -- One of three ways to end: before it registers, with nothing written; with a connection to the
  -- sender of a pong, and a pong to that sender last; or with a failure, and the cancel message. All
  -- else behind the registration is pings and pongs.
  pub data Departs : Outcome Connected → List Datagram → Type 0 where
    unregistered : (r : Outcome Connected) → IsFailure r → Departs r []
    connects :
        (server message : Bytes) (c : Connected)
        → Registers server message
        → Heard a.reads c
        → (pings : List Datagram) → All IsPing pings
        → Departs (ok c) (
            record { destination = some server; payload = message }
            ∷ (pings
                ++ (record {
                  destination = c.addr;
                  payload = marshal (from_peer_entries pair_id (text "pong"));
                }
                    ∷ [])))
    cancels :
        (server message : Bytes) (r : Outcome Connected) (between late : List Datagram)
        → Registers server message
        → IsFailure r
        → All IsPing between
        → All IsPing late
        → Departs r (
            record { destination = some server; payload = message }
            ∷ (between
                ++ (record { destination = some server; payload = cancel_message pair_id } ∷ late)))

  abbrev Ends : Punched → Type 0
  Ends p = (r : Outcome Connected) → p.result ≡ some r → Departs r p.written
