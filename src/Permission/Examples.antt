-- ===== src/Permission/Examples.antt =====
-- Tests of the permission checker, and instances of its theorems.
use pipie.Prelude.{true, false, ◌≡◌, refl, ◌↔◌, List, [], ◌∷◌, text, bytes_equal}
use pipie.Permission.{new_register, build_checker, check_port_forward_in, check_port_forward_out}
use pipie.Permission.Grants.{
  Grant, forward_in, forward_out, pipe_out, GrantedIn, GrantedOut, apply_grants,
}
use pipie.Permission.Access.{checker_after, checks_iff}

-- The grants of a server that runs in the normal mode, after an earlier outbound grant.
abbrev server_grants : List Grant
server_grants = forward_out (text "10.0.0.1") 22 ∷ pipe_out ∷ forward_in (text "") 0 ∷ []

wildcard_allows : check_port_forward_in (checker_after server_grants) (text "h") 80 ≡ true
unfolding check_port_forward_in build_checker new_register apply_grants bytes_equal
wildcard_allows = refl

earlier_grant_lost :
    check_port_forward_out (checker_after server_grants) (text "10.0.0.1") 22 ≡ false
unfolding check_port_forward_out build_checker new_register apply_grants
earlier_grant_lost = refl

checks_iff_example :
    ((check_port_forward_in (checker_after server_grants) (text "h") 80 ≡ true)
      ↔ GrantedIn server_grants (text "h") 80)
    × ((check_port_forward_out (checker_after server_grants) (text "h") 80 ≡ true)
        ↔ GrantedOut server_grants (text "h") 80)
checks_iff_example = checks_iff server_grants (text "h") 80
