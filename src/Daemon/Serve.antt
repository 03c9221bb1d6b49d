-- ===== src/Daemon/Serve.antt =====
-- The three intentions of a challenge response, in handleExchange of internal/pipie/daemon.go. An
-- action returns `true` where the source leaves the inner switch and goes on to delete the token,
-- and `false` where it returns from handleExchange with no error.
use pipie.Prelude.{
  ℕ, Bool, true, false, Option, none, some, Bytes, text, Action, Outcome, ok, panic, pure, fail,
  lift, ◌>>=◌, ◌>>◌, if◌then◌else◌, ◌%◌,
}
use pipie.Platform.{Platform, Url}
use pipie.Exchange.{Intention, pipe_out, port_forward_to, port_forward_from}
use pipie.Permission.{check_port_forward_in, check_port_forward_out, check_pipe_out}
use pipie.Pair.Builder.{PairConnectionConfig}
use pipie.Daemon.State.{
  Daemon, World, Entropy, pipe_session, forward_from_session, forward_to_session, start_session,
  kill,
}
use pipie.Daemon.Confirm.{daemon_challenge_confirm, refusal, accept}

-- `*p` of a pointer that may be nil
abbrev pub deref {ℓ} : {A : Type ℓ} → Option A → Outcome A
deref none = panic (text "invalid memory address or nil pointer dereference")
deref (some a) = ok a

-- uint16(n)
abbrev pub uint16 : ℕ → ℕ
uint16 n = n % 65536

-- `run_pipe` is the outcome of the blocking pipe session over a configuration.
module _ (p : Platform) (rand : Entropy) (run_pipe : PairConnectionConfig → Outcome (Unit {0}))
    (d : Daemon) where
  refuse : Bytes → Bytes → Action World Bool
  unfolding daemon_challenge_confirm
  refuse token source = do daemon_challenge_confirm p rand d token source refusal; pure true

  unfoldable pub serve_pipe_out : Bytes → Bytes → Bytes → Bytes → Url → Action World Bool
  unfolding refuse accept start_session kill
  serve_pipe_out token source pair_id pair_key relay =
      if check_pipe_out d.permission
      then (do
        config ← accept p rand d token source pair_id pair_key relay
        start_session (pipe_session config)
        lift (run_pipe config)
        kill
        pure false)
      else refuse token source

  unfoldable pub serve_forward_to :
      Bytes → Bytes → Bytes → Bytes → Url → Option Bytes → Option ℕ → Action World Bool
  unfolding refuse accept start_session
  serve_forward_to token source pair_id pair_key relay dest_ip dest_port = do
    host ← lift (deref dest_ip)
    port ← lift (deref dest_port)
    (if check_port_forward_in d.permission host port
        then (do
          config ← accept p rand d token source pair_id pair_key relay
          start_session (forward_from_session config host (uint16 port))
          pure true)
        else refuse token source)

  unfoldable pub serve_forward_from :
      Bytes → Bytes → Bytes → Bytes → Url → Option Bytes → Option ℕ → Action World Bool
  unfolding refuse accept start_session
  serve_forward_from token source pair_id pair_key relay bind_ip bind_port = do
    host ← lift (deref bind_ip)
    port ← lift (deref bind_port)
    (if check_port_forward_out d.permission host port
        then (do
          config ← accept p rand d token source pair_id pair_key relay
          start_session (forward_to_session config host (uint16 port))
          pure true)
        else refuse token source)

  unfoldable pub serve_intention :
      Bytes → Bytes → Bytes → Bytes → Url → Option Intention → Action World Bool
  serve_intention token source pair_id pair_key relay (some pipe_out) =
      serve_pipe_out token source pair_id pair_key relay
  serve_intention token source pair_id pair_key relay (some (port_forward_to host port)) =
      serve_forward_to token source pair_id pair_key relay host port
  serve_intention token source pair_id pair_key relay (some (port_forward_from host port)) =
      serve_forward_from token source pair_id pair_key relay host port
  serve_intention token source pair_id pair_key relay none = fail (text "intention type unknown")
