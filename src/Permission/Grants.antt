-- ===== src/Permission/Grants.antt =====
-- What is granted by a list of grants, without running the register.
use pipie.Prelude.{ℕ, ◌≡◌, ◌⊎◌, List, [], ◌∷◌, ◌++◌, Bytes}
use pipie.Permission.{Register, allow_port_forward_in, allow_port_forward_out, allow_pipe_out}

-- A call of one of the register's `Allow` methods.
pub data Grant : Type 0 where
  forward_in : Bytes → ℕ → Grant
  forward_out : Bytes → ℕ → Grant
  pipe_out : Grant

unfoldable pub apply_grant : Register → Grant → Register
unfolding allow_port_forward_in allow_port_forward_out allow_pipe_out
apply_grant r (forward_in host port) = allow_port_forward_in r host port
apply_grant r (forward_out host port) = allow_port_forward_out r host port
apply_grant r pipe_out = allow_pipe_out r

unfoldable pub apply_grants : Register → List Grant → Register
unfolding apply_grant
apply_grants r [] = r
apply_grants r (g ∷ gs) = apply_grants (apply_grant r g) gs

abbrev pub NotForward : Grant → Type 0
NotForward pipe_out = Unit
NotForward _ = ⊥

abbrev pub NoForward : List Grant → Type 0
NoForward [] = Unit
NoForward (g ∷ gs) = NotForward g × NoForward gs

abbrev pub Covers : Bytes → ℕ → Bytes → ℕ → Type 0
Covers host port h p = ((host ≡ []) × (port ≡ 0)) ⊎ ((h ≡ host) × (p ≡ port))

-- The last forward grant of the list is `forward_in host port`, and covers the address asked for.
pub record GrantedIn (gs : List Grant) (h : Bytes) (p : ℕ) : Type 0 where
  pub before : List Grant
  pub host : Bytes
  pub port : ℕ
  pub after : List Grant
  pub split : gs ≡ before ++ (forward_in host port ∷ after)
  pub is_last : NoForward after
  pub covers : Covers host port h p

pub record GrantedOut (gs : List Grant) (h : Bytes) (p : ℕ) : Type 0 where
  pub before : List Grant
  pub host : Bytes
  pub port : ℕ
  pub after : List Grant
  pub split : gs ≡ before ++ (forward_out host port ∷ after)
  pub is_last : NoForward after
  pub covers : Covers host port h p
