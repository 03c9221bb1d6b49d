-- ===== src/Daemon/State.antt =====
-- What a daemon is and what it does to its surroundings (internal/pipie/daemon.go): the token map,
-- the datagrams that it wrote, the forward sessions that it started, and its end.
use pipie.Prelude.{
  ℕ, suc, Bool, true, false, Option, none, some, List, [], ◌∷◌, ◌++◌, if◌then◌else◌, Bytes, text,
  bytes_equal, Action, Outcome, ok, panic,
}
use pipie.Permission.{Checker}
use pipie.Pair.Builder.{PairConnectionConfig}

-- The fields of `daemon` that do not change while it runs, with those of DaemonServiceConfig.
pub record Daemon : Type 0 where
  pub transfer_code : Bytes
  pub signal_encryption_hash : Bytes
  pub access_key : Bytes
  pub permission : Checker
  pub cert : Option Bytes
  pub cert_hash : Bytes
  pub force_relay : Bool

-- A session that a handler starts in its own goroutine, or runs to its end (pipes).
pub data Session : Type 0 where
  pipe_session : PairConnectionConfig → Session
  forward_from_session : PairConnectionConfig → Bytes → ℕ → Session
  forward_to_session : PairConnectionConfig → Bytes → ℕ → Session

-- `token_map` is keyed by the hexadecimal token; `sent` and `sessions` are in order.
pub record World : Type 0 where
  pub token_map : List (Bytes × ℕ)
  pub sent : List Bytes
  pub sessions : List Session
  pub killed : Bool
  pub draws : ℕ
  pub now : ℕ

-- crypto/rand: what the n-th read of so many bytes returns; `none` is an error or a short read.
abbrev pub Entropy : Type 0
Entropy = ℕ → ℕ → Option Bytes

unfoldable pub has_token : Bytes → List (Bytes × ℕ) → Bool
has_token key [] = false
has_token key ((k, t) ∷ m) = if bytes_equal k key then true else has_token key m

-- `m[key] = t` and `delete(m, key)`
unfoldable pub delete_token : Bytes → List (Bytes × ℕ) → List (Bytes × ℕ)
delete_token key [] = []
delete_token key ((k, t) ∷ m) =
    let rest = delete_token key m in if bytes_equal k key then rest else (k, t) ∷ rest

unfoldable pub put_token : Bytes → ℕ → List (Bytes × ℕ) → List (Bytes × ℕ)
unfolding delete_token
put_token key t m = (key, t) ∷ delete_token key m

abbrev pub drawn : Option Bytes → Outcome Bytes
drawn none = panic (text "rand.Read")
drawn (some b) = ok b

-- getRandomBytes
unfoldable pub get_random_bytes : Entropy → ℕ → Action World Bytes
get_random_bytes rand size w = (drawn (rand w.draws size), record w { draws = suc w.draws })

unfoldable pub issue_token : Bytes → Action World (Unit {0})
unfolding put_token
issue_token key w = (ok tt, record w { token_map = put_token key w.now w.token_map })

unfoldable pub revoke_token : Bytes → Action World (Unit {0})
revoke_token key w = (ok tt, record w { token_map = delete_token key w.token_map })

-- `d.conn.Write(frame)`, whose result is not looked at.
unfoldable pub write_frame : Bytes → Action World (Unit {0})
write_frame frame w = (ok tt, record w { sent = w.sent ++ (frame ∷ []) })

unfoldable pub start_session : Session → Action World (Unit {0})
start_session s w = (ok tt, record w { sessions = w.sessions ++ (s ∷ []) })

-- `t.Kill(nil)`
unfoldable pub kill : Action World (Unit {0})
kill w = (ok tt, record w { killed = true })
