-- ===== src/Pair/ReusableFd.antt =====
-- setReusableFD of lib/pairconnect/platform_notwin.go, which the dialer and the listener of the TCP
-- traversal call on each socket. Nothing else has its channel, so that what it does is the sequence of
-- the sends and receives of one goroutine.
use pipie.Prelude.{
  ℕ, zero, suc, ◌≤◌, ◌≡◌, ◌≢◌, ◌↔◌, refl, sym, ◌∙◌, true, arith, Option, none, some, List, [], ◌∷◌,
  ◌++◌, Bytes, length, ltb, if◌then◌else◌, ap,
}

pub data Op : Type 0 where
  sends : Option Bytes → Op
  receives : Op

-- What Control does: it calls the function before it returns, or returns an error without a call; the
-- function's two calls of SetsockoptInt have their errors.
pub data Control : Type 0 where
  calls : Option Bytes → Option Bytes → Control
  refuses : Bytes → Control

-- The function that Control is given.
unfoldable pub set_options : Option Bytes → Option Bytes → List Op
set_options (some e) reuse_port = sends (some e) ∷ []
set_options none (some e) = sends (some e) ∷ []
set_options none none = sends none ∷ []

abbrev pub control : Control → List Op
control (calls reuse_addr reuse_port) = set_options reuse_addr reuse_port
control (refuses e) = []

-- The error of Control is not looked at.
unfoldable pub set_reusable_fd : Control → List Op
unfolding set_options
set_reusable_fd c = control c ++ (receives ∷ [])

-- `make(chan error)` has no buffer.
unfoldable pub err_chan_capacity : ℕ
err_chan_capacity = 0

-- A goroutine alone with a channel: what is in the buffer, what is still to be done, and what the last
-- receive gave.
pub record Alone : Type 0 where
  pub buffer : List (Option Bytes)
  pub todo : List Op
  pub received : Option (Option Bytes)

abbrev pub receive : List (Option Bytes) → List Op → Alone → Alone
receive [] todo a = a
receive (x ∷ buffer) todo a = record { buffer = buffer; todo = todo; received = some x }

-- One operation, where the buffer allows it; otherwise the goroutine waits.
abbrev pub operate : ℕ → List Op → Alone → Alone
operate capacity [] a = a
operate capacity (sends x ∷ todo) a =
    if ltb (length a.buffer) capacity
    then record a { buffer = a.buffer ++ (x ∷ []); todo = todo }
    else a
operate capacity (receives ∷ todo) a = receive a.buffer todo a

unfoldable pub go_on : ℕ → ℕ → Alone → Alone
go_on capacity zero a = a
go_on capacity (suc n) a = go_on capacity n (operate capacity a.todo a)

abbrev pub started : List Op → Alone
started ops = record { buffer = []; todo = ops; received = none }

stuck : (capacity n : ℕ) (a : Alone) → operate capacity a.todo a ≡ a → go_on capacity n a ≡ a
unfolding go_on
stuck capacity zero a e = refl
stuck capacity (suc n) a e = rw e (stuck capacity n a e)

-- With no room in the buffer a goroutine alone does nothing at all.
stays : (ops : List Op) → operate 0 ops (started ops) ≡ started ops
stays [] = refl
stays (sends x ∷ ops) = refl
stays (receives ∷ ops) = refl

abbrev first_error : Option Bytes → Option Bytes → Option Bytes
first_error (some e) reuse_port = some e
first_error none reuse_port = reuse_port

-- All of it is done, and the result is what was received.
abbrev pub Returns : ℕ → Control → Option Bytes → Type 0
Returns capacity c result =
    (n : ℕ) × (let a = go_on capacity n (started (set_reusable_fd c)) in
      (a.todo ≡ []) × (a.received ≡ some result))

-- Control calls its function, and `result` is the first error of the two calls of SetsockoptInt.
abbrev pub CallsWith : Control → Option Bytes → Type 0
CallsWith (calls reuse_addr reuse_port) result = result ≡ first_error reuse_addr reuse_port
CallsWith (refuses e) result = ⊥

has_todo : (c : Control) → set_reusable_fd c ≢ []
unfolding set_reusable_fd set_options
has_todo (calls (some e) reuse_port) q = cc
has_todo (calls none (some e)) q = cc
has_todo (calls none none) q = cc
has_todo (refuses e) q = cc

needs_room : (c : Control) (n : ℕ) → (go_on 0 n (started (set_reusable_fd c))).todo ≢ []
needs_room c n q = has_todo c (
    sym (ap (λ a. a.todo) (stuck 0 n (started (set_reusable_fd c)) (stays (set_reusable_fd c))))
    ∙ q)

refusal_waits :
    (capacity n : ℕ) (e : Bytes)
    → (go_on capacity n (started (set_reusable_fd (refuses e)))).todo ≢ []
unfolding set_reusable_fd
refusal_waits capacity n e q =
    let same = ap (λ a. a.todo) (stuck capacity n (started (receives ∷ [])) refl) in cc

one_value :
    (reuse_addr reuse_port : Option Bytes)
    → set_reusable_fd (calls reuse_addr reuse_port)
      ≡ sends (first_error reuse_addr reuse_port) ∷ receives ∷ []
unfolding set_reusable_fd set_options
one_value (some e) reuse_port = refl
one_value none (some e) = refl
one_value none none = refl

has_room : (room : ℕ) → ltb 0 (suc room) ≡ true
has_room room = ground arith

abbrev handed_over : Option Bytes → Alone
handed_over x = record { buffer = []; todo = []; received = some x }

-- With room for a value: one operation sends, the next receives, and nothing is left to do.
sends_receives :
    (room n : ℕ) (x : Option Bytes)
    → go_on (suc room) (suc (suc n)) (started (sends x ∷ receives ∷ [])) ≡ handed_over x
unfolding go_on
sends_receives room n x = rw (has_room room) (stuck (suc room) n (handed_over x) refl)

first_waits :
    (room : ℕ) (x : Option Bytes)
    → (go_on (suc room) 1 (started (sends x ∷ receives ∷ []))).todo ≢ []
unfolding go_on
first_waits room x q = let r = has_room room in ground arith

received_one : (x y : Option Bytes) → (handed_over x).received ≡ some y → y ≡ x
received_one x y e = cc

gives_first :
    (room n : ℕ) (x result : Option Bytes)
    → let a = go_on (suc room) n (started (sends x ∷ receives ∷ [])) in
      a.todo ≡ [] → a.received ≡ some result → result ≡ x
unfolding go_on
gives_first room zero x result t r = cc
gives_first room (suc zero) x result t r = absurd (first_waits room x t)
gives_first room (suc (suc n)) x result t r =
    received_one x result (ap (λ a. a.received) (sym (sends_receives room n x)) ∙ r)

Returns-CallsWith :
    (room : ℕ) (c : Control) (result : Option Bytes)
    → Returns (suc room) c result
    → CallsWith c result
Returns-CallsWith room (calls reuse_addr reuse_port) result (n, (t, r)) =
    let x = first_error reuse_addr reuse_port in
    let e = one_value reuse_addr reuse_port in
    gives_first room n x result (ap (λ ops. (go_on (suc room) n (started ops)).todo) (sym e) ∙ t)
      (ap (λ ops. (go_on (suc room) n (started ops)).received) (sym e) ∙ r)
Returns-CallsWith room (refuses e) result (n, (t, r)) = refusal_waits (suc room) n e t

CallsWith-Returns :
    (room : ℕ) (c : Control) (result : Option Bytes)
    → CallsWith c result
    → Returns (suc room) c result
CallsWith-Returns room (calls reuse_addr reuse_port) result h =
    let x = first_error reuse_addr reuse_port in
    let e =
      ap (λ ops. go_on (suc room) 2 (started ops)) (one_value reuse_addr reuse_port)
      ∙ sends_receives room 0 x in
    (2, (ap (λ a. a.todo) e, ap (λ a. a.received) e ∙ ap some (sym h)))
CallsWith-Returns room (refuses e) result h = absurd h

Returns-by_room :
    (capacity : ℕ) (c : Control) (result : Option Bytes)
    → Returns capacity c result ↔ ((1 ≤ capacity) × CallsWith c result)
Returns-by_room zero c result =
    (λ (n, (t, r)). absurd (needs_room c n t), λ h. absurd (omega (arith, h.0)))
Returns-by_room (suc room) c result = (
  λ h. (omega arith, Returns-CallsWith room c result h),
  λ h. CallsWith-Returns room c result h.1,
)

-- The goroutine of setReusableFD comes to its end with a result exactly if its channel has room for a
-- value, Control calls the function that it is given, and the result is the first error of the two
-- calls of SetsockoptInt; since the channel that it makes has no buffer, it never returns.
pub set_reusable_fd-Returns_iff :
    (capacity : ℕ) (c : Control) (result : Option Bytes)
    → (Returns capacity c result ↔ ((1 ≤ capacity) × CallsWith c result))
      × (¬ Returns err_chan_capacity c result)
unfolding err_chan_capacity
set_reusable_fd-Returns_iff capacity c result =
    (Returns-by_room capacity c result, λ (n, (t, r)). needs_room c n t)
