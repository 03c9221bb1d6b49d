-- ===== src/CommandLine/Directions.antt =====
-- Whether a server that was started with some arguments serves a client that was started with others.
use mathlib.Core.Path.{subst}
use pipie.Prelude.{
  ℕ, ◌≡◌, refl, ap, ◌∙◌, sym, ◌≢◌, ◌↔◌, ◌⊎◌, inl, inr, Bool, true, false, not, some, Bytes,
  bytes_equal, bytes_equal_iff, arith, Outcome, ok, err, panic, Bool-cases,
}
use pipie.Exchange.{Intention, pipe_out, port_forward_to, port_forward_from}
use pipie.Permission.{
  Checker, new_register, allow_pipe_out, allow_port_forward_in, allow_port_forward_out,
  build_checker, check_port_forward_in, check_port_forward_out, check_pipe_out,
}
use pipie.Client.Tasks.{
  Task, pipe_client, port_forward_to_client, port_forward_from_client, task_intention,
}
use pipie.CommandLine.{
  Arguments, ForwardAddresses, daemon_command, client_command, mode_pipe, mode_port_forward,
  client_task, client_call, read_addresses, call, command, server_permission,
}

-- What a daemon asks its checker about an intention.
abbrev pub permits : Checker → Intention → Bool
permits checker pipe_out = check_pipe_out checker
permits checker (port_forward_to (some host) (some port)) = check_port_forward_in checker host port
permits checker (port_forward_from (some host) (some port)) =
    check_port_forward_out checker host port
permits checker _ = false

-- The direction of a task: `true` for the forwards from the daemon.
abbrev Directed : Task → Bool → Type 0
Directed pipe_client reverse = ⊥
Directed (port_forward_to_client w m y n) reverse = reverse ≡ false
Directed (port_forward_from_client w m y n) reverse = reverse ≡ true

permits-to :
    (reverse : Bool) (w : Bytes) (m : ℕ) (y : Bytes) (n : ℕ)
    → permits (server_permission reverse) (task_intention (port_forward_to_client w m y n))
      ≡ not reverse
unfolding server_permission task_intention new_register allow_pipe_out allow_port_forward_in
    allow_port_forward_out build_checker check_port_forward_in bytes_equal
permits-to true w m y n = refl
permits-to false w m y n = refl

permits-from :
    (reverse : Bool) (w : Bytes) (m : ℕ) (y : Bytes) (n : ℕ)
    → permits (server_permission reverse) (task_intention (port_forward_from_client w m y n))
      ≡ reverse
unfolding server_permission task_intention new_register allow_pipe_out allow_port_forward_in
    allow_port_forward_out build_checker check_port_forward_out bytes_equal
permits-from true w m y n = refl
permits-from false w m y n = refl

permits-pipe :
    (reverse : Bool) → permits (server_permission reverse) (task_intention pipe_client) ≡ true
unfolding server_permission task_intention new_register allow_pipe_out allow_port_forward_in
    allow_port_forward_out build_checker check_pipe_out
permits-pipe true = refl
permits-pipe false = refl

client_call-not_daemon :
    (r : Outcome Task) (checker : Checker) → ¬ (client_call r ≡ ok (daemon_command checker))
client_call-not_daemon (ok task) checker e = cc
client_call-not_daemon (err m) checker e = cc
client_call-not_daemon (panic m) checker e = cc

client_call-task :
    (r : Outcome Task) (task : Task) → client_call r ≡ ok (client_command task) → r ≡ ok task
client_call-task (ok t) task e = cc
client_call-task (err m) task e = absurd (cc)
client_call-task (panic m) task e = absurd (cc)

call-daemon :
    (a : Arguments) (r : Outcome ForwardAddresses) (checker : Checker)
    → call a r ≡ ok (daemon_command checker)
    → checker ≡ server_permission a.reverse_forward
unfolding call
call-daemon a (err m) checker e = absurd (cc)
call-daemon a (panic m) checker e = absurd (cc)
call-daemon a (ok f) checker e = elim (Bool-cases a.as_server) [
  | inl s ↦ ground arith
  | inr s ↦ absurd (client_call-not_daemon (client_task a f) checker (ground arith))
]

call-task :
    (a : Arguments) (r : Outcome ForwardAddresses) (task : Task)
    → call a r ≡ ok (client_command task)
    → (f : ForwardAddresses) × (client_task a f ≡ ok task)
unfolding call
call-task a (err m) task e = absurd (cc)
call-task a (panic m) task e = absurd (cc)
call-task a (ok f) task e = elim (Bool-cases a.as_server) [
  | inl s ↦ absurd (ground arith)
  | inr s ↦ (f, client_call-task (client_task a f) task (ground arith))
]

-- A task is a pipe, or a forward in the direction that the arguments name.
data Wanted (a : Arguments) : Task → Type 0 where
  pipe : a.mode ≡ mode_pipe → Wanted a pipe_client
  to :
      (w : Bytes) (m : ℕ) (y : Bytes) (n : ℕ)
      → a.mode ≢ mode_pipe
      → a.reverse_forward ≡ false
      → Wanted a (port_forward_to_client w m y n)
  from :
      (w : Bytes) (m : ℕ) (y : Bytes) (n : ℕ)
      → a.mode ≢ mode_pipe
      → a.reverse_forward ≡ true
      → Wanted a (port_forward_from_client w m y n)

Wanted-subst : (a : Arguments) {t task : Task} → t ≡ task → Wanted a t → Wanted a task
Wanted-subst a q = subst (Wanted a) q

client_task-Wanted :
    (a : Arguments) (f : ForwardAddresses) (task : Task) → client_task a f ≡ ok task → Wanted a task
unfolding client_task
client_task-Wanted a f task e =
    let mode = bytes_equal_iff a.mode mode_pipe in
    elim (Bool-cases (bytes_equal a.mode mode_pipe)) [
      | inl s ↦ Wanted-subst a {t = pipe_client} (ground arith) (pipe (mode.0 s))
      | inr s ↦
          let other : a.mode ≢ mode_pipe = λ q. absurd (ground arith) in
          elim (Bool-cases (bytes_equal a.mode mode_port_forward)) [
            | inr u ↦ absurd (ground arith)
            | inl u ↦ elim (Bool-cases a.reverse_forward) [
              | inl v ↦
                  Wanted-subst a (ground arith)
                    (from f.bind_host f.bind_port f.dest_host f.dest_port other v)
              | inr v ↦
                  Wanted-subst a (ground arith)
                    (to f.bind_host f.bind_port f.dest_host f.dest_port other v)
            ]
          ]
    ]

Wanted-permits :
    (reverse : Bool) (c : Arguments) (task : Task)
    → Wanted c task
    → (permits (server_permission reverse) (task_intention task) ≡ true)
      ↔ ((c.mode ≡ mode_pipe) ⊎ (reverse ≡ c.reverse_forward))
Wanted-permits reverse c _ (pipe e) = (λ p. inl e, λ p. permits-pipe reverse)
Wanted-permits reverse c _ (to w m y n other v) = (
  λ p. inr (ground (arith, permits-to reverse w m y n)),
  λ p. elim p [ inl q ↦ absurd (other q) | inr q ↦ permits-to reverse w m y n ∙ ap not (q ∙ v) ],
)
Wanted-permits reverse c _ (from w m y n other v) = (
  λ p. inr (sym (permits-from reverse w m y n) ∙ p ∙ sym v),
  λ p. elim p [ inl q ↦ absurd (other q) | inr q ↦ permits-from reverse w m y n ∙ q ∙ v ],
)

-- A server and a client that were started with any arguments: the server's checker permits what the
-- client asks for exactly if the client wants a pipe, or both or neither of them forward in reverse.
pub command-permits :
    (s c : Arguments) (checker : Checker) (task : Task)
    → command s ≡ ok (daemon_command checker)
    → command c ≡ ok (client_command task)
    → (permits checker (task_intention task) ≡ true)
      ↔ ((c.mode ≡ mode_pipe) ⊎ (s.reverse_forward ≡ c.reverse_forward))
unfolding command
command-permits s c checker task es ec =
    let (f, q) = call-task c (read_addresses c) task ec in
    rw (call-daemon s (read_addresses s) checker es)
      (Wanted-permits s.reverse_forward c task (client_task-Wanted c f task q))
