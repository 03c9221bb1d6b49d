-- ===== src/Daemon/Untouched.antt =====
-- What the replies of a daemon leave as it was.
use pipie.Prelude.{◌≤◌, ◌≡◌, Bytes, arith}
use pipie.Platform.{Platform, Url}
use pipie.Exchange.{ConfirmPayload}
use pipie.Daemon.State.{Daemon, World, Entropy}
use pipie.Daemon.Confirm.{daemon_challenge_confirm, accept}

-- A reply writes datagrams and draws random bytes, and does nothing else.
pub record OnlyReplies (v w : World) : Type 0 where
  pub token_map : w.token_map ≡ v.token_map
  pub sessions : w.sessions ≡ v.sessions
  pub killed : w.killed ≡ v.killed
  pub now : w.now ≡ v.now
  pub draws : v.draws ≤ w.draws

module _ (p : Platform) (rand : Entropy) (d : Daemon) where
  pub confirm-OnlyReplies :
      (token dest : Bytes) (payload : ConfirmPayload) (w : World)
      → OnlyReplies w (daemon_challenge_confirm p rand d token dest payload w).1
  unfolding daemon_challenge_confirm
  confirm-OnlyReplies token dest payload w = ground arith

  pub accept-OnlyReplies :
      (token source pair_id pair_key : Bytes) (relay : Url) (w : World)
      → OnlyReplies w (accept p rand d token source pair_id pair_key relay w).1
  unfolding accept
  accept-OnlyReplies token source pair_id pair_key relay w = ground arith
