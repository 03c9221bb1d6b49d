-- ===== src/Permission.antt =====
-- internal/pipie/permission/permission.go: the register of what a daemon allows, and the checker
-- that is built from a copy of it.
pub mod Grants
pub mod Access
mod Examples
use pipie.Prelude.{[], ℕ, Bool, true, false, ◌&&◌, ◌==◌, if◌then◌else◌, Bytes, bytes_equal}

-- `forwardAllow` is an int8 that only ever holds 0, 1 or 2; `forwardPort` is an `int`, which every
-- caller fills with a number that is not negative.
pub record Register : Type 0 where
  pub pipe_out_allow : Bool
  pub forward_allow : ℕ
  pub forward_host : Bytes
  pub forward_port : ℕ

pub record Checker : Type 0 where
  pub register : Register

unfoldable pub new_register : Register
new_register = record {
  pipe_out_allow = false;
  forward_allow = 0;
  forward_host = [];
  forward_port = 0;
}

unfoldable pub allow_port_forward_in : Register → Bytes → ℕ → Register
allow_port_forward_in r host port = record r {
  forward_allow = 1;
  forward_host = host;
  forward_port = port;
}

unfoldable pub allow_port_forward_out : Register → Bytes → ℕ → Register
allow_port_forward_out r host port = record r {
  forward_allow = 2;
  forward_host = host;
  forward_port = port;
}

unfoldable pub allow_pipe_out : Register → Register
allow_pipe_out r = record r { pipe_out_allow = true }

-- The checker holds a copy of the register.
unfoldable pub build_checker : Register → Checker
build_checker r = record { register = r }

unfoldable pub check_port_forward_in : Checker → Bytes → ℕ → Bool
check_port_forward_in checker dest_host dest_port =
    if forward_allow == 1
    then if bytes_equal forward_host [] && forward_port == 0
      then true
      else if bytes_equal dest_host forward_host && dest_port == forward_port
      then true
      else false
    else false
  where
    open checker.register use {forward_allow, forward_host, forward_port}

unfoldable pub check_port_forward_out : Checker → Bytes → ℕ → Bool
check_port_forward_out checker bind_host bind_port =
    if forward_allow == 2
    then if bytes_equal forward_host [] && forward_port == 0
      then true
      else if bytes_equal bind_host forward_host && bind_port == forward_port
      then true
      else false
    else false
  where
    open checker.register use {forward_allow, forward_host, forward_port}

unfoldable pub check_pipe_out : Checker → Bool
check_pipe_out checker = checker.register.pipe_out_allow
