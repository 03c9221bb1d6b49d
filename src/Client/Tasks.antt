-- ===== src/Client/Tasks.antt =====
-- The three clients of internal/pipie/client.go: the intention that each sends, and the session that
-- it runs over the built configuration.
use pipie.Prelude.{ℕ, some, Bytes, Action, lift, pure, ◌>>=◌}
use pipie.Platform.{Platform}
use pipie.Exchange.{Intention, pipe_out, port_forward_to, port_forward_from}
use pipie.Pair.Builder.{PairConnectionConfig, build}
use pipie.Daemon.State.{Entropy}
use pipie.Daemon.Serve.{uint16}
use pipie.Daemon.Loop.{Read}
use pipie.Client.Exchanges.{Client, ClientWorld, client}

-- PipeClient, PortForwardToClient and PortForwardFromClient, with the bind and the destination
-- addresses.
pub data Task : Type 0 where
  pipe_client : Task
  port_forward_to_client : Bytes → ℕ → Bytes → ℕ → Task
  port_forward_from_client : Bytes → ℕ → Bytes → ℕ → Task

unfoldable pub task_intention : Task → Intention
task_intention pipe_client = pipe_out
task_intention (port_forward_to_client bind_host bind_port dest_host dest_port) =
    port_forward_to (some dest_host) (some dest_port)
task_intention (port_forward_from_client bind_host bind_port dest_host dest_port) =
    port_forward_from (some bind_host) (some bind_port)

-- pipeIn, portForwardTo and portForwardFrom of internal/pipie/daemonservices.go.
pub data ClientSession : Type 0 where
  pipe_in : PairConnectionConfig → ClientSession
  forward_to : PairConnectionConfig → Bytes → ℕ → ClientSession
  forward_from : PairConnectionConfig → Bytes → ℕ → ClientSession

unfoldable pub task_session : Task → PairConnectionConfig → ClientSession
task_session pipe_client config = pipe_in config
task_session (port_forward_to_client bind_host bind_port dest_host dest_port) config =
    forward_to config bind_host (uint16 bind_port)
task_session (port_forward_from_client bind_host bind_port dest_host dest_port) config =
    forward_from config dest_host (uint16 dest_port)

unfoldable pub run_task :
    Platform → Entropy → Client → Read → Read → Task → Action ClientWorld ClientSession
unfolding task_intention task_session
run_task p rand c first second task = do
  builder ← client p rand c first second (task_intention task)
  config ← lift (build builder)
  pure (task_session task config)
