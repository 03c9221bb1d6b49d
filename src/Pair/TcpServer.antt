-- ===== src/Pair/TcpServer.antt =====
-- The connection of buildConnectionTCP (lib/pairconnect/conn_builder.go) to the rendezvous server: what
-- is written to it, and its closes, by the deferred function or behind the reply.
use pipie.Prelude.{
  ℕ, ◌≡◌, refl, Option, List, [], ◌∷◌, ◌++◌, Bytes, Outcome, ok, err, panic, ◌⊎◌, inl, inr,
  Outcome-cases, arith, if◌then◌else◌, ◌+◌, ◌∙◌, sym, text,
}
use pipie.CommandLine.{split}
use pipie.Pair.Traverse.{PairInfos}
use pipie.Pair.Punch.{Entries, registration}
use pipie.Pair.Tcp.{second_part, TcpAnswers, Started, start_tcp}

-- How often the connection was opened and closed, and what was written to it.
record ServerConn : Type 0 where
  opens : ℕ
  closes : ℕ
  written : List Bytes

-- The variable of the connection: a nil one is not closed by the deferred function.
data ConnVar : Type 0 where
  is_nil held : ConnVar

abbrev deferred : ConnVar → ServerConn → ServerConn
deferred is_nil s = s
deferred held s = record s { closes = s.closes + 1 }

-- With a true status it is closed at once, and the variable is set to nil.
abbrev after_reply : Outcome PairInfos → ServerConn → ServerConn
after_reply (ok infos) s =
    if infos.status then deferred is_nil (record s { closes = s.closes + 1 }) else deferred held s
after_reply (err e) s = deferred held s
after_reply (panic e) s = deferred held s

abbrev after_write : TcpAnswers → Outcome Bytes → ServerConn → ServerConn
after_write a (ok line) s = after_reply a.parsed s
after_write a (err e) s = deferred held s
after_write a (panic e) s = deferred held s

-- The address is split as by udpTraverse, and the line ends with a newline.
abbrev with_message : TcpAnswers → Outcome Bytes → ServerConn → ServerConn
with_message a (ok message) s =
    after_write a a.message (record s { written = s.written ++ ((message ++ (10 ∷ [])) ∷ []) })
with_message a (err e) s = deferred held s
with_message a (panic e) s = deferred held s

module _ (marshal : Entries → Bytes) (pair_id : Bytes) where
  unfoldable server_conn : TcpAnswers → ServerConn
  unfolding registration split
  server_conn a = elim a.dialed [
    | ok local_addr ↦
        with_message a (registration marshal pair_id (split b':' local_addr))
          (record { opens = 1; closes = 0; written = [] })
    | err e ↦ record { opens = 0; closes = 0; written = [] }
    | panic e ↦ record { opens = 0; closes = 0; written = [] }
  ]

-- One close more, and nothing written.
record ClosesOnce (s t : ServerConn) : Type 0 where
  opens : t.opens ≡ s.opens
  closes : t.closes ≡ s.closes + 1
  written : t.written ≡ s.written

after_reply-ClosesOnce : (r : Outcome PairInfos) (s : ServerConn) → ClosesOnce s (after_reply r s)
after_reply-ClosesOnce (ok infos) s = ground arith
after_reply-ClosesOnce (err e) s = record { opens = refl; closes = refl; written = refl }
after_reply-ClosesOnce (panic e) s = record { opens = refl; closes = refl; written = refl }

after_write-ClosesOnce :
    (a : TcpAnswers) (r : Outcome Bytes) (s : ServerConn) → ClosesOnce s (after_write a r s)
after_write-ClosesOnce a (ok line) s = after_reply-ClosesOnce a.parsed s
after_write-ClosesOnce a (err e) s = record { opens = refl; closes = refl; written = refl }
after_write-ClosesOnce a (panic e) s = record { opens = refl; closes = refl; written = refl }

with_message-closes :
    (a : TcpAnswers) (r : Outcome Bytes)
    → let s : ServerConn = record { opens = 1; closes = 0; written = [] } in
      (with_message a r s).closes ≡ (with_message a r s).opens
with_message-closes a (ok message) =
    let once =
      after_write-ClosesOnce a a.message
        (record { opens = 1; closes = 0; written = (message ++ (10 ∷ [])) ∷ [] }) in
    once.closes ∙ sym once.opens
with_message-closes a (err e) = refl
with_message-closes a (panic e) = refl

module _ (marshal : Entries → Bytes) (pair_id : Bytes) where
  -- The line was written.
  record Registers (a : TcpAnswers) : Type 0 where
    local_addr : Bytes
    message : Bytes
    has_addr : a.dialed ≡ ok local_addr
    registered : registration marshal pair_id (split b':' local_addr) ≡ ok message
    written : (server_conn marshal pair_id a).written ≡ (message ++ (10 ∷ [])) ∷ []

  registers :
      (a : TcpAnswers) (local_addr message : Bytes)
      → a.dialed ≡ ok local_addr
      → registration marshal pair_id (split b':' local_addr) ≡ ok message
      → Registers a
  unfolding server_conn
  registers a local_addr message q m = record {
    local_addr = local_addr;
    message = message;
    has_addr = q;
    registered = m;
    written =
        rw (q, m)
          (after_write-ClosesOnce (record a { dialed = ok local_addr }) a.message
            (record { opens = 1; closes = 0; written = (message ++ (10 ∷ [])) ∷ [] })).written;
  }

  second_part-registration :
      (parts : List Bytes)
      → ((message : Bytes) × (registration marshal pair_id parts ≡ ok message))
        ⊎ ((e : Bytes) × (second_part parts ≡ panic e))
  unfolding registration
  second_part-registration [] = inr (_, refl)
  second_part-registration (ip ∷ []) = inr (_, refl)
  second_part-registration (ip ∷ (port ∷ rest)) = inl (_, refl)

  server_conn-closes :
      (a : TcpAnswers)
      → (server_conn marshal pair_id a).closes ≡ (server_conn marshal pair_id a).opens
  unfolding server_conn
  server_conn-closes a = elim (Outcome-cases a.dialed) [
    | inl (local_addr, q) ↦
        rw q (with_message-closes a (registration marshal pair_id (split b':' local_addr)))
    | inr f ↦ ground arith
  ]

  start_tcp-Registers : (a : TcpAnswers) (o : Option Started) → start_tcp a ≡ ok o → Registers a
  unfolding start_tcp
  start_tcp-Registers a o e = elim (Outcome-cases a.dialed) [
    | inr f ↦ absurd (ground arith)
    | inl (local_addr, q) ↦ elim (second_part-registration (split b':' local_addr)) [
      | inl (message, m) ↦ registers a local_addr message q m
      | inr (x, n) ↦ absurd (ground arith)
    ]
  ]

-- On every branch, the panics included, the connection to the rendezvous server is closed as often as
-- it was opened; and where the call does not fail before it starts its goroutines, or returns on a
-- false status, it has written one line to it, the registration of its local address.
server_conn-Registers :
    (marshal : Entries → Bytes) (pair_id : Bytes) (a : TcpAnswers)
    → ((server_conn marshal pair_id a).closes ≡ (server_conn marshal pair_id a).opens)
      × ((o : Option Started) → start_tcp a ≡ ok o → Registers marshal pair_id a)
server_conn-Registers marshal pair_id a =
    (server_conn-closes marshal pair_id a, start_tcp-Registers marshal pair_id a)

-- A server that answers nothing: the line was written, and the connection is closed.
abbrev no_answer : TcpAnswers
no_answer = record {
  dialed = ok (text "10.0.0.1:4000");
  message = err (text "EOF");
  parsed = err [];
}

no_answer-server_conn :
    server_conn (λ entries. text "registration") (text "id") no_answer
    ≡ record { opens = 1; closes = 1; written = (text "registration" ++ (10 ∷ [])) ∷ [] }
unfolding server_conn registration split
no_answer-server_conn = refl
