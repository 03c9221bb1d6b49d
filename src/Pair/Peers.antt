-- ===== src/Pair/Peers.antt =====
-- Two ends in udpTraverse of lib/pairconnect/conn_builder.go whose datagrams may reach each other:
-- the message loop and the goroutines of sendPingPong, in any order of their steps, a datagram that is
-- read and a round of pings being one step each. A datagram may
-- be lost, delayed, repeated or overtaken: any that was ever sent to an address of an end may arrive.
pub mod Sound
pub mod Keeps
pub mod Meet
pub mod Roles
pub mod Rounds
pub mod Connect
mod Examples
use mathlib.Core.List.{Memᴰ}
use pipie.Prelude.{
  ℕ, suc, ◌+◌, ◌≡◌, Bool, true, false, Option, none, some, List, [], ◌∷◌, ◌++◌, Bytes, text,
}
use pipie.Pair.Traverse.{
  PairInfos, Message, from_peer, infos, Traverse, new_traverse, Step, goes_on, ponged, returns,
  panics, take_message, Sent, ping, pong, ping_pong_round,
}

-- The function reads, has a connection, or has failed.
pub data Phase : Type 0 where
  reading met gone : Phase

-- An end: its state, the rounds that its ping goroutines have left, what it has sent to its peer and
-- the words of its peer that it has read.
pub record End : Type 0 where
  pub phase : Phase
  pub traverse : Traverse
  pub rounds : ℕ
  pub sent : List Sent
  pub heard : List Bytes

abbrev pub new_end : End
new_end = record { phase = reading; traverse = new_traverse; rounds = 0; sent = []; heard = [] }

-- The last pong.
abbrev pub pong_to : Option Bytes → List Sent
pong_to none = []
pong_to (some addr) = pong addr ∷ []

-- A pairInfo starts a goroutine, with eight rounds.
abbrev pub rounds_for : Message → ℕ
rounds_for (infos i) = 8
rounds_for _ = 0

abbrev pub word_of : Message → List Bytes
word_of (from_peer word) = word ∷ []
word_of _ = []

abbrev pub after_step : End → Message → Step → End
after_step e m (goes_on t) = record e {
  traverse = t;
  rounds = e.rounds + rounds_for m;
  heard = word_of m ++ e.heard;
}
after_step e m (ponged t) = record e {
  phase = met;
  traverse = t;
  sent = pong_to t.last_addr ++ e.sent;
  heard = word_of m ++ e.heard;
}
after_step e m (returns x) = record e { phase = gone }
after_step e m (panics x) = record e { phase = gone }

-- An end reads a message from an address.
unfoldable pub hear : (Bytes → Option Bytes) → End → Message → Bytes → End
unfolding take_message
hear resolve e m addr = after_step e m (take_message resolve e.traverse m addr)

abbrev pub after_round : End → ℕ → Option (List Sent) → End
after_round e left none = record e { rounds = left }
after_round e left (some sent) = record e { rounds = left; sent = sent ++ e.sent }

abbrev pub round_to : End → ℕ → Option Bytes → End
round_to e left none = record e { rounds = left }
round_to e left (some addr) =
    after_round e left (ping_pong_round e.traverse.state addr e.traverse.last_addr2)

-- A round of a ping goroutine, of which `left` and one more are left. While nobody has been named it
-- sends nothing.
unfoldable pub send_round : End → ℕ → End
unfolding ping_pong_round
send_round e left = round_to e left e.traverse.last_addr

-- The addresses that each end's datagrams come from and that reach it: the one behind a translation,
-- say, and the one in front of it. `Issues` is what the rendezvous server sends
-- to each end.
pub record Network : Type 1 where
  pub resolve : Bytes → Option Bytes
  pub Owns : Bool → Bytes → Type 0
  pub Issues : Bool → Message → Type 0
  pub no_word : (side : Bool) (word : Bytes) → ¬ Issues side (from_peer word)

-- What may come from `from` to an end of side `side`: the peer's words, and the server's messages.
pub data Arrives (n : Network) (side peer : Bool) (sent : List Sent)
    : Message → Bytes → Type 0 where
  pings :
      (to from : Bytes)
      → Memᴰ (ping to) sent
      → n.Owns side to
      → n.Owns peer from
      → Arrives n side peer sent (from_peer (text "ping")) from
  pongs :
      (to from : Bytes)
      → Memᴰ (pong to) sent
      → n.Owns side to
      → n.Owns peer from
      → Arrives n side peer sent (from_peer (text "pong")) from
  issued : (m : Message) (from : Bytes) → n.Issues side m → Arrives n side peer sent m from

-- A step of an end, given what its peer has sent.
pub data Moves (n : Network) (side peer : Bool) (sent : List Sent) : End → End → Type 0 where
  hears :
      (e : End) (m : Message) (from : Bytes)
      → e.phase ≡ reading
      → Arrives n side peer sent m from
      → Moves n side peer sent e (hear n.resolve e m from)
  sends :
      (e : End) (left : ℕ)
      → e.phase ≡ reading
      → e.rounds ≡ suc left
      → Moves n side peer sent e (send_round e left)
  -- The time is over, or the socket fails.
  fails : (e : End) → e.phase ≡ reading → Moves n side peer sent e (record e { phase = gone })

pub record Peers : Type 0 where
  pub left : End
  pub right : End

pub data PeersStep (n : Network) : Peers → Peers → Type 0 where
  left_moves :
      (s : Peers) (e : End)
      → Moves n false true s.right.sent s.left e
      → PeersStep n s (record s { left = e })
  right_moves :
      (s : Peers) (e : End)
      → Moves n true false s.left.sent s.right e
      → PeersStep n s (record s { right = e })

pub data PeersSteps (n : Network) : Peers → Peers → Type 0 where
  done : (s : Peers) → PeersSteps n s s
  then_step : {s t u : Peers} → PeersSteps n s t → PeersStep n t u → PeersSteps n s u

abbrev pub new_peers : Peers
new_peers = record { left = new_end; right = new_end }
