-- ===== src/Services.antt =====
-- pipeIn, pipeOut, portForwardFrom and portForwardTo of internal/pipie/daemonservices.go: a pair
-- connection with its mux session, and what runs over it. The session is closed in the end.
pub mod Closing
mod Examples
use pipie.Prelude.{ℕ, suc, ◌-◌, Option, none, some, List, Bytes, Action, Outcome, ok, err, panic}
use pipie.Pair.Builder.{PairConnectionConfig}
use pipie.Pair.Connect.{Answers, Secured, MuxRole, connect_to_with_mux}
use pipie.Io.Copy.{ReadResult, WriteResult}
use pipie.Io.Session.{
  StreamAnswers, ForwardAnswers, SessionWorld, pipe_inlet, pipe_outlet, forward_port_client,
  forward_port_server,
}

unfoldable pub with_session :
    Outcome (Secured × MuxRole) → Action SessionWorld (Unit {0}) → Action SessionWorld (Unit {0})
with_session (err e) body w = (err e, w)
with_session (panic e) body w = (panic e, w)
with_session (ok s) body w =
    let (r, v) = body (record w { sessions = suc w.sessions }) in
    (r, record v { sessions = v.sessions - 1 })

abbrev pub Forward : Type 0
Forward = SessionWorld → Option (Outcome (Unit {0})) × SessionWorld

abbrev closing : Option (Outcome (Unit {0})) → SessionWorld → SessionWorld
closing none v = v
closing (some r) v = record v { sessions = v.sessions - 1 }

-- An error is logged only, and a forward that never returns keeps the session open.
abbrev logged : Option (Outcome (Unit {0})) → Option (Outcome (Unit {0}))
logged (some (err e)) = some (ok tt)
logged r = r

unfoldable pub with_forward : Outcome (Secured × MuxRole) → Forward → Forward
with_forward (err e) body w = (some (ok tt), w)
with_forward (panic e) body w = (some (panic e), w)
with_forward (ok s) body w =
    let (r, v) = body (record w { sessions = suc w.sessions }) in (logged r, closing r v)

module _ (config : PairConnectionConfig) (answers : Answers) where
  module _ {W : Type 0} (write : W → Bytes → WriteResult × W) (reads : List ReadResult)
      (w : W) where
    unfoldable pub pipe_in : StreamAnswers → Action SessionWorld (Unit {0})
    unfolding with_session
    pipe_in a = with_session (connect_to_with_mux config answers) (pipe_inlet write reads w a)

    unfoldable pub pipe_out : StreamAnswers → Action SessionWorld (Unit {0})
    unfolding with_session
    pipe_out a = with_session (connect_to_with_mux config answers) (pipe_outlet write reads w a)

  unfoldable pub port_forward_from : ForwardAnswers → Forward
  unfolding with_forward
  port_forward_from a = with_forward (connect_to_with_mux config answers) (forward_port_server a)

  unfoldable pub port_forward_to : ForwardAnswers → Forward
  unfolding with_forward
  port_forward_to a = with_forward (connect_to_with_mux config answers) (forward_port_client a)
