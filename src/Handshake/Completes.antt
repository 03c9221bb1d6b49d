-- ===== src/Handshake/Completes.antt =====
-- The whole exchange: a client and a daemon whose datagrams reach each other.
use pipie.Prelude.{suc, ◌≡◌, some, [], ◌∷◌, ◌++◌, length, Bytes, Outcome, ok}
use pipie.Platform.{Platform, Url}
use pipie.Permission.{Checker}
use pipie.Keys.{challenge_token_size, payload_nonce_size}
use pipie.Pair.Builder.{PairConnectionConfig}
use pipie.Client.Exchanges.{Client, new_client_world}
use pipie.Client.Tasks.{Task, task_intention, task_session, run_task}
use pipie.Daemon.State.{Daemon, World, Entropy}
use pipie.Daemon.Confirm.{acceptance}
use pipie.Daemon.Handle.{get_relay_server}
use pipie.Daemon.Loop.{DaemonServiceConfig, new_daemon, received, daemon_loop}
use pipie.Pairing.{Agree}
use pipie.Handshake.Laws.{PlatformLaws, Steady}
use pipie.Handshake.Messages.{Messages}
use pipie.Handshake.ClientRun.{drawn_with}
use pipie.Handshake.Serving.{daemon_session}
use pipie.Handshake.DaemonRun.{drawn_pair_id}

module _ (p : Platform) (laws : PlatformLaws p) (rand_c rand_d : Entropy) (steady_c : Steady rand_c)
    (steady_d : Steady rand_d) (run_pipe : PairConnectionConfig → Outcome (Unit {0}))
    (config : DaemonServiceConfig) (c : Client) (pmc : Checker) (task : Task) (v : World)
    (relay : Url) where
  -- The daemon of the client's user name and access key.
  abbrev pub its_daemon : Daemon
  its_daemon = new_daemon p config c.username c.access_key pmc

  -- The messages of the exchange, and a certificate and a relay that are there.
  pub record Ready : Type 0 where
    pub cert : Bytes
    pub has_cert : c.cert ≡ some cert
    pub hash_size : length config.cert_hash ≡ 32
    pub has_relay : get_relay_server p ≡ ok relay
    pub messages :
        Messages p c.username
          (drawn_with steady_c
            (steady_d.draw v.draws challenge_token_size)
            (steady_d.draw (suc (suc v.draws)) payload_nonce_size))
          (task_intention task)
          (acceptance its_daemon relay (drawn_pair_id steady_d v.draws))

  -- Each end sends its two datagrams, which are those that the other receives; the client ends with
  -- its session, the daemon has started its own, and their configurations agree.
  pub record Completes : Type 0 where
    pub request : Bytes
    pub challenge : Bytes
    pub response : Bytes
    pub confirmation : Bytes
    pub ours : PairConnectionConfig
    pub theirs : PairConnectionConfig
    pub client_ends :
        (run_task p rand_c c (received challenge) (received confirmation) task new_client_world).0
        ≡ ok (task_session task theirs)
    pub client_sends :
        (run_task p rand_c c
          (received challenge)
          (received confirmation)
          task
          new_client_world).1.sent
        ≡ request ∷ (response ∷ [])
    pub daemon_sends :
        (daemon_loop p rand_d run_pipe its_daemon
          (received request ∷ (received response ∷ []))
          v).sent
        ≡ v.sent ++ (challenge ∷ (confirmation ∷ []))
    pub daemon_starts :
        (daemon_loop p rand_d run_pipe its_daemon
          (received request ∷ (received response ∷ []))
          v).sessions
        ≡ v.sessions ++ (daemon_session task ours ∷ [])
    pub agree : Agree ours theirs
