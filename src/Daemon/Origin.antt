-- ===== src/Daemon/Origin.antt =====
-- Where the sessions of a daemon come from: each answers a challenge of that daemon.

use mathlib.Core.Path.{subst}
use pipie.Prelude.{
  append-nil, append_assoc, ◌∙◌, ◌≡◌, refl, sym, inl, inr, List, [], ◌∷◌, ◌++◌, All, All-append,
  Bytes, text, contains, Outcome, Bool-cases, ap,
}
use pipie.Platform.{Platform}
use pipie.Keys.{hex_encode}
use pipie.Pair.Builder.{PairConnectionConfig}
use pipie.Daemon.State.{Daemon, World, Entropy, Session}
use pipie.Daemon.Handle.{handle_exchange}
use pipie.Daemon.Authorized.{Authorizes, handle_exchange-authorized}
use pipie.Daemon.Loop.{Read, received, read_error, into_buffer, daemon_loop, new_world}
use pipie.Daemon.Issued.{Drawn, TokensDrawn, new_world-drawn, exchange-TokensDrawn}

-- Where a session of a run over `reads` comes from: a datagram of the run, as far as the receive
-- buffer holds it, authorized it, in the
-- state that the reads before it had brought a new daemon to, and answered a token that had been
-- drawn by then.
pub record Answers (p : Platform) (rand : Entropy)
    (run_pipe : PairConnectionConfig → Outcome (Unit {0})) (d : Daemon) (reads : List Read)
    (s : Session) : Type 0 where
  pub before : List Read
  pub packet : Bytes
  pub after : List Read
  pub run : reads ≡ before ++ (received packet ∷ after)
  pub state : World
  pub reached : state ≡ daemon_loop p rand run_pipe d before new_world
  pub authorizes : Authorizes p d state (into_buffer packet) s
  pub drawn : Drawn rand state.draws (hex_encode authorizes.token)

module _ (p : Platform) (rand : Entropy) (run_pipe : PairConnectionConfig → Outcome (Unit {0}))
    (d : Daemon) where
  -- A new daemon goes on from `w` after the reads `before`.
  abbrev Resumes : List Read → World → Type 0
  Resumes before w =
      (more : List Read)
      → daemon_loop p rand run_pipe d (before ++ more) new_world
        ≡ daemon_loop p rand run_pipe d more w

  Resumes-next :
      (before : List Read) (r : Read) (w v : World)
      → ((more : List Read)
          → daemon_loop p rand run_pipe d (r ∷ more) w ≡ daemon_loop p rand run_pipe d more v)
      → Resumes before w
      → Resumes (before ++ (r ∷ [])) v
  Resumes-next before r w v one resumes more =
      ap (λ l. daemon_loop p rand run_pipe d l new_world) (append_assoc before (r ∷ []) more)
      ∙ resumes (r ∷ more)
      ∙ one more

  Resumes-reached :
      (before : List Read) (w : World)
      → Resumes before w
      → w ≡ daemon_loop p rand run_pipe d before new_world
  unfolding daemon_loop
  Resumes-reached before w resumes =
      sym (resumes []) ∙ ap (λ l. daemon_loop p rand run_pipe d l new_world) (append-nil before)

  exchange-Adds :
      (before : List Read) (packet : Bytes) (reads : List Read) (w : World)
      → TokensDrawn rand w
      → Resumes before w
      → (more : List Session) × ((handle_exchange p rand run_pipe d
            (into_buffer packet)
            w).1.sessions
          ≡ w.sessions ++ more)
        × All (Answers p rand run_pipe d (before ++ (received packet ∷ reads))) more
  exchange-Adds before packet reads w h resumes =
      elim (handle_exchange-authorized p rand run_pipe d (into_buffer packet) w) [
        | inl same ↦ ([], same ∙ sym (append-nil w.sessions), tt)
        | inr (s, a, more) ↦ (
          s ∷ [],
          more,
          (
            record {
              before = before;
              packet = packet;
              after = reads;
              run = refl;
              state = w;
              reached = Resumes-reached before w resumes;
              authorizes = a;
              drawn = h (hex_encode a.token) a.known;
            },
            tt,
          ),
        )
      ]

  -- What `daemon_loop` adds to the sessions after `before`.
  abbrev Adds : List Read → List Read → World → Type 0
  Adds whole reads w =
      (more : List Session) × ((daemon_loop p rand run_pipe d reads w).sessions
        ≡ w.sessions ++ more)
      × All (Answers p rand run_pipe d whole) more

  daemon_loop-Adds :
      (before reads : List Read) (w : World)
      → TokensDrawn rand w
      → Resumes before w
      → Adds (before ++ reads) reads w
  unfolding daemon_loop
  daemon_loop-Adds before [] w h resumes = ([], sym (append-nil w.sessions), tt)
  daemon_loop-Adds before (received packet ∷ reads) w h resumes =
      let v = (handle_exchange p rand run_pipe d (into_buffer packet) w).1 in
      let (first, e, a) = exchange-Adds before packet reads w h resumes in
      let (rest, f, b) =
        daemon_loop-Adds (before ++ (received packet ∷ [])) reads v
          (exchange-TokensDrawn p rand run_pipe d (into_buffer packet) w h)
          (Resumes-next before (received packet) w v (λ more. refl) resumes) in
      (
        first ++ rest,
        rw (f, e, append_assoc),
        All-append (Answers p rand run_pipe d (before ++ (received packet ∷ reads))) first rest a (
            subst (λ l. All (Answers p rand run_pipe d l) rest)
              (append_assoc before (received packet ∷ []) reads) b),
      )
  daemon_loop-Adds before (read_error message ∷ reads) w h resumes =
      elim (Bool-cases (contains message (text "connection refused"))) [
        | inl again ↦
            let (more, e, a) =
              daemon_loop-Adds (before ++ (read_error message ∷ [])) reads w h
                (Resumes-next before (read_error message) w w (λ rest. rw again) resumes) in
            (
              more,
              rw again e,
              subst (λ l. All (Answers p rand run_pipe d l) more)
                  (append_assoc before (read_error message ∷ []) reads) a,
            )
        | inr stop ↦ ([], rw (stop, append-nil), tt)
      ]

  -- In every run of a new daemon, over any datagrams and errors, each session that was started
  -- answers a challenge of that daemon: a datagram of the run, or its first 1500 bytes, authorized
  -- it, in the state that the reads before that datagram had brought the daemon to, in which it had
  -- drawn the token that the datagram carries.
  pub daemon_loop-answers :
      (reads : List Read)
      → All
          (Answers p rand run_pipe d reads)
          (daemon_loop p rand run_pipe d reads new_world).sessions
  daemon_loop-answers reads =
      let (more, e, a) = daemon_loop-Adds [] reads new_world (new_world-drawn rand) (λ l. refl) in
      rw e a
