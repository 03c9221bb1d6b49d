-- ===== src/Pair/Reliable.antt =====
-- stabilifyUDPConn of lib/pairconnect/reliable_conn.go, and Close of the connWrapper that it returns
-- (lib/pairconnect/util.go). KCP is third-party code: a call gives an error or not, and one that
-- gives an error gives a nil pointer beside it.
use pipie.Prelude.{
  ℕ, zero, suc, ◌-◌, Bool, true, false, ◌||◌, Option, none, some, List, [], ◌∷◌, Bytes, text, ltb,
  Outcome, ok, err, panic, if◌then◌else◌,
}

-- The errors of NewAESBlockCrypt, ServeConn, AcceptKCP and NewConn, each read only if its call is
-- made.
pub record KcpAnswers : Type 0 where
  pub cipher : Option Bytes
  pub serve : Option Bytes
  pub accept : Option Bytes
  pub new_conn : Option Bytes

-- The wrapper: whether it has a listener to close, closeCounter, and how often the listener and the
-- session have been closed.
pub record ReliableConn : Type 0 where
  pub has_listener : Bool
  pub close_counter : ℕ
  pub listener_closes : ℕ
  pub session_closes : ℕ

abbrev pub new_reliable_conn : Bool → ReliableConn
new_reliable_conn as_server = record {
  has_listener = as_server;
  close_counter = 1;
  listener_closes = 0;
  session_closes = 0;
}

abbrev pub building : Bytes
building = text "cannot build reliable UDP Conn: "

abbrev nil_dereference : Bytes
nil_dereference = text "invalid memory address or nil pointer dereference"

abbrev pub accepted : Option Bytes → Outcome ReliableConn
accepted none = ok (new_reliable_conn true)
accepted (some e) = err (text "cannot build reliable UDP Conn: kcp.AcceptKCP")

-- The variables of stabilifyUDPConn: whether the listener or the session is there, which is nil
-- otherwise, and its own `err`.
record Locals : Type 0 where
  made : Bool
  error : Option Bytes

abbrev is_none : Option Bytes → Bool
is_none none = true
is_none (some e) = false

-- `x, err = f()` in the block of eSpec, where `encryptBlock, err :=` has declared another `err`, and
-- in the block without a key.
abbrev assign : Bool → Option Bytes → Locals → Locals
assign true e l = record l { made = is_none e }
assign false e l = record l { made = is_none e; error = e }

-- `if err != nil` behind the blocks, and the first use of the pointer.
abbrev checked : Bytes → Option Bytes → Outcome (Unit {0}) → Outcome (Unit {0})
checked message none rest = rest
checked message (some e) rest = err message

abbrev used : Bool → Outcome (Unit {0})
used true = ok tt
used false = panic nil_dereference

abbrev created : Bool → Option Bytes → Outcome (Unit {0}) → Outcome (Unit {0})
created true (some e) rest =
    err (text "cannot build reliable UDP Conn: cannot create encryption block")
created _ _ rest = rest

-- The listener or the session, from the error of the call that makes it.
unfoldable pub open_with : Bool → KcpAnswers → Option Bytes → Bytes → Outcome (Unit {0})
open_with encrypted a e message =
    let l = assign encrypted e (record { made = false; error = none }) in
    created encrypted a.cipher (checked message l.error (used l.made))

abbrev pub then_returns : Outcome (Unit {0}) → Outcome ReliableConn → Outcome ReliableConn
then_returns (ok t) rest = rest
then_returns (err e) rest = err e
then_returns (panic e) rest = panic e

unfoldable pub stabilify_udp_conn : Bool → Bool → KcpAnswers → Outcome ReliableConn
unfolding open_with
stabilify_udp_conn true encrypted a =
    then_returns
      (open_with encrypted a a.serve (text "cannot build reliable UDP Conn: kcp.ServeConn"))
      (accepted a.accept)
stabilify_udp_conn false encrypted a =
    then_returns
      (open_with encrypted a a.new_conn (text "cannot build reliable UDP Conn: kcp.NewConn"))
      (ok (new_reliable_conn false))

-- What a round of the wait in beforeClose sees: the milliseconds since its start and the lengths of
-- the two queues.
pub record Sample : Type 0 where
  pub elapsed : ℕ
  pub snd_buf : ℕ
  pub snd_queue : ℕ

-- The rounds that beforeClose sleeps, each ten milliseconds; `none` is that it has not ended.
unfoldable pub before_close : (ℕ → Sample) → ℕ → ℕ → Option ℕ
before_close samples zero i = none
before_close samples (suc fuel) i =
    let s = samples i in
    let rest = before_close samples fuel (suc i) in
    if ltb 0 s.snd_buf || ltb 0 s.snd_queue
    then if ltb 2000 s.elapsed then some i else rest
    else some i

-- The deferred afterClose, which the client's side has not.
unfoldable pub after_close : ReliableConn → ReliableConn
after_close c =
    if c.has_listener
    then if ltb 0 c.close_counter
      then record c { listener_closes = suc c.listener_closes; close_counter = c.close_counter - 1 }
      else c
    else c

-- Rounds enough for two seconds.
abbrev pub close_rounds : ℕ
close_rounds = 202

-- Close: the result is that of the session's Close.
unfoldable pub close :
    (ℕ → Sample) → Option Bytes → ReliableConn → Option (Option Bytes × ReliableConn)
unfolding before_close after_close
close samples result c = elim (before_close samples close_rounds 0) [
  | none ↦ none
  | some rounds ↦ some (result, after_close (record c { session_closes = suc c.session_closes }))
]

abbrev pub Call : Type 0
Call = (ℕ → Sample) × Option Bytes

-- Close called again and again.
unfoldable pub close_all : List Call → ReliableConn → Option ReliableConn
unfolding close
close_all [] c = some c
close_all ((samples, result) ∷ calls) c = elim (close samples result c) [
  | none ↦ none
  | some (r, c') ↦ close_all calls c'
]
