-- ===== src/Pair/Traverse.antt =====
-- udpTraverse and buildConnectionUDP of lib/pairconnect/conn_builder.go. An address is what
-- `net.ResolveUDPAddr` makes of "ip:port", a datagram comes parsed, and the sends of the ping
-- goroutine are a function of the states that it loads. The meta that comes with an error, which no
-- caller reads, is left out; Pair/Punch has the sockets and what is written around the loop.
use pipie.Prelude.{
  ℕ, zero, suc, ◌%◌, ◌==◌, Bool, false, not, Option, none, some, List, [], ◌∷◌, ◌++◌, Bytes, text,
  bytes_equal, Outcome, ok, err, panic, if◌then◌else◌,
}

pub record PairInfo : Type 0 where
  pub public_ip : Bytes
  pub public_port : Bytes
  pub interface_ip : Bytes
  pub interface_port : Bytes
  pub polarity : Bool

-- What the rendezvous server says of this end and of its peer.
pub record PairInfos : Type 0 where
  pub status : Bool
  pub pair_info : PairInfo
  pub pair2_info : PairInfo

-- A datagram as the two calls of json.Unmarshal and the tests on the map see it. `no_infos` has
-- neither key and does not parse as pairInfos; the value of fromPeer may be no string.
pub data Message : Type 0 where
  invalid false_status no_infos from_peer_no_string : Message
  from_peer : Bytes → Message
  infos : PairInfos → Message

pub data Read : Type 0 where
  datagram : Message → Bytes → Read
  read_failed : Bytes → Read

-- `state`: 0 waits for the pairInfo, 1 sends pings, 2 sends pongs.
pub record Traverse : Type 0 where
  pub pair_info : Option PairInfos
  pub state : ℕ
  pub last_addr : Option Bytes
  pub last_addr2 : Option Bytes

abbrev pub new_traverse : Traverse
new_traverse = record { pair_info = none; state = 0; last_addr = none; last_addr2 = none }

pub record Connected : Type 0 where
  pub addr : Option Bytes
  pub meta : Bool

-- What a message leads to: the loop goes on, ends with a pong, or the function returns or panics.
pub data Step : Type 0 where
  goes_on : Traverse → Step
  ponged : Traverse → Step
  returns : Bytes → Step
  panics : Bytes → Step

abbrev address : Bytes → Bytes → Bytes
address ip port = ip ++ (text ":" ++ port)

abbrev same_address : PairInfo → Bool
same_address i =
    if bytes_equal i.public_ip i.interface_ip
    then bytes_equal i.public_port i.interface_port
    else false

module _ (resolve : Bytes → Option Bytes) where
  abbrev with_interface : Traverse → PairInfos → Bytes → Option Bytes → Step
  with_interface t i addr none = panics (text "ResolveUDPAddr")
  with_interface t i addr (some addr2) =
      goes_on
        (record { pair_info = some i; state = 1; last_addr = some addr; last_addr2 = some addr2 })

  abbrev with_public : Traverse → PairInfos → Option Bytes → Step
  with_public t i none = panics (text "ResolveUDPAddr")
  with_public t i (some addr) =
      if same_address i.pair2_info
      then goes_on
          (record { pair_info = some i; state = 1; last_addr = some addr; last_addr2 = none })
      else with_interface t i addr
          (resolve (address i.pair2_info.interface_ip i.pair2_info.interface_port))

  -- The peers' addresses of a pairInfo.
  unfoldable pub take_infos : Traverse → PairInfos → Step
  take_infos t i =
      if i.status
      then with_public t i (resolve (address i.pair2_info.public_ip i.pair2_info.public_port))
      else returns (text "traversal server status false")

  -- A ping or a pong of the peer, from `addr`; others, and all while there is no pairInfo, count
  -- for nothing.
  unfoldable pub take_from_peer : Traverse → Bytes → Bytes → Step
  take_from_peer t word addr =
      if t.state == 0
      then goes_on t
      else if bytes_equal word (text "ping")
      then goes_on (record t { state = 2; last_addr = some addr })
      else if bytes_equal word (text "pong")
      then ponged (record t { state = 3; last_addr = some addr })
      else goes_on t

  unfoldable pub take_message : Traverse → Message → Bytes → Step
  unfolding take_infos take_from_peer
  take_message t invalid addr = returns (text "read invalid message")
  take_message t false_status addr = returns (text "server returns false status")
  take_message t no_infos addr = returns (text "read invalid message")
  take_message t from_peer_no_string addr =
      if t.state == 0 then goes_on t else panics (text "interface conversion")
  take_message t (from_peer word) addr = take_from_peer t word addr
  take_message t (infos i) addr = take_infos t i

  -- Behind the loop: the socket is opened again, whose error errorAssert turns into a panic, and
  -- `lastAddr` and `&pairInfo.PairInfo.Meta` are returned.
  unfoldable pub finish : Option Bytes → Traverse → Outcome Connected
  finish (some e) t = panic e
  finish none t = elim t.pair_info [
    | none ↦ panic (text "invalid memory address or nil pointer dereference")
    | some i ↦ ok (record { addr = t.last_addr; meta = i.pair_info.polarity })
  ]

  -- The state in which a pong ends the loop; `none` where the reads end before it does.
  unfoldable pub traverse_loop : List Read → Traverse → Option (Outcome Traverse)
  unfolding take_message
  traverse_loop [] t = none
  traverse_loop (read_failed e ∷ reads) t = some (err e)
  traverse_loop (datagram message addr ∷ reads) t = elim (take_message t message addr) [
    | goes_on t' ↦ traverse_loop reads t'
    | ponged t' ↦ some (ok t')
    | returns e ↦ some (err e)
    | panics e ↦ some (panic e)
  ]

-- Which of the two ends sends later, by the round and the polarity of its pairInfo.
unfoldable pub delay_send : ℕ → Option PairInfos → Bool
delay_send round none = round % 2 == 1
delay_send round (some i) = if i.pair_info.polarity then not (round % 2 == 1) else round % 2 == 1

pub data Sent : Type 0 where
  ping pong : Bytes → Sent

abbrev pub to_both : Bytes → Option Bytes → List Sent
to_both addr none = ping addr ∷ []
to_both addr (some addr2) = ping addr ∷ ping addr2 ∷ []

-- One round of sendPingPong: what is sent, or `none` where it returns.
unfoldable pub ping_pong_round : ℕ → Bytes → Option Bytes → Option (List Sent)
ping_pong_round state addr addr2 =
    if state == 1
    then some (to_both addr addr2)
    else if state == 2
    then some (pong addr ∷ [])
    else none

-- One round of buildConnectionUDP: cancelled before it, or what udpTraverse returns.
pub record Attempt : Type 0 where
  pub cancelled : Bool
  pub result : Outcome Connected

abbrev pub traversal_attempt_retry : ℕ
traversal_attempt_retry = 4

abbrev cancelled_error : Option Bytes → Bytes
cancelled_error none = text "cancelled or timeout"
cancelled_error (some e) = e

-- Not read in practice: at least one round is tried.
abbrev last_error : Option Bytes → Outcome Connected
last_error none = panic (text "no attempt")
last_error (some e) = err e

-- `left` rounds are left, from the i-th on, and `e` is the last error.
unfoldable pub attempts : (ℕ → Attempt) → ℕ → ℕ → Option Bytes → Outcome Connected
attempts attempt zero i e = last_error e
attempts attempt (suc left) i e =
    if (attempt i).cancelled then err (cancelled_error e) else elim (attempt i).result [
      | ok c ↦ ok c
      | err e' ↦ attempts attempt left (suc i) (some e')
      | panic e' ↦ panic e'
    ]

unfoldable pub build_connection_udp : (ℕ → Attempt) → Outcome Connected
unfolding attempts
build_connection_udp attempt = attempts attempt traversal_attempt_retry 0 none
