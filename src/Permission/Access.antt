-- ===== src/Permission/Access.antt =====
-- What a checker allows after a list of grants, against the grants themselves.
use pipie.Prelude.{
  ℕ, true, ◌≡◌, refl, sym, ap, ◌↔◌, List, [], ◌∷◌, ◌++◌, arith, Bytes, bytes_equal_iff,
}
use pipie.Permission.{
  Register, Checker, new_register, build_checker, check_port_forward_in, check_port_forward_out,
}
use pipie.Permission.Grants.{
  Grant, forward_in, forward_out, pipe_out, apply_grant, apply_grants, NoForward, Covers, GrantedIn,
  GrantedOut,
}

-- Where the forward fields of the register come from.
data Origin (r : Register) (gs : List Grant) (result : Register) : Type 0 where
  kept :
      NoForward gs
      → result.forward_allow ≡ r.forward_allow
      → result.forward_host ≡ r.forward_host
      → result.forward_port ≡ r.forward_port
      → Origin r gs result
  by_in :
      (before : List Grant) (host : Bytes) (port : ℕ) (after : List Grant)
      → gs ≡ before ++ (forward_in host port ∷ after)
      → NoForward after
      → result.forward_allow ≡ 1
      → result.forward_host ≡ host
      → result.forward_port ≡ port
      → Origin r gs result
  by_out :
      (before : List Grant) (host : Bytes) (port : ℕ) (after : List Grant)
      → gs ≡ before ++ (forward_out host port ∷ after)
      → NoForward after
      → result.forward_allow ≡ 2
      → result.forward_host ≡ host
      → result.forward_port ≡ port
      → Origin r gs result

Origin-cons :
    (r : Register) (g : Grant) (gs : List Grant) (result : Register)
    → Origin (apply_grant r g) gs result
    → Origin r (g ∷ gs) result
unfolding apply_grant
Origin-cons r (forward_in h p) gs result (kept n a b c) = by_in [] h p gs refl n a b c
Origin-cons r (forward_out h p) gs result (kept n a b c) = by_out [] h p gs refl n a b c
Origin-cons r pipe_out gs result (kept n a b c) = kept (tt, n) a b c
Origin-cons r g gs result (by_in b h p a s l x y z) =
    by_in (g ∷ b) h p a (ap (λ t. g ∷ t) s) l x y z
Origin-cons r g gs result (by_out b h p a s l x y z) =
    by_out (g ∷ b) h p a (ap (λ t. g ∷ t) s) l x y z

origin : (r : Register) (gs : List Grant) → Origin r gs (apply_grants r gs)
unfolding apply_grants
origin r [] = kept tt refl refl refl
origin r (g ∷ gs) = Origin-cons r g gs _ (origin (apply_grant r g) gs)

-- Grants that are no forward grants leave the forward fields.
record SameForward (r q : Register) : Type 0 where
  allow : q.forward_allow ≡ r.forward_allow
  host : q.forward_host ≡ r.forward_host
  port : q.forward_port ≡ r.forward_port

NoForward-same : (r : Register) (gs : List Grant) → NoForward gs → SameForward r (apply_grants r gs)
unfolding apply_grants
NoForward-same r [] n = record { allow = refl; host = refl; port = refl }
NoForward-same r (forward_in h p ∷ gs) n = absurd n.0
NoForward-same r (forward_out h p ∷ gs) n = absurd n.0
NoForward-same r (pipe_out ∷ gs) n =
    let s = NoForward-same (apply_grant r pipe_out) gs n.1 in
    record { allow = s.allow; host = s.host; port = s.port }

apply_grants-append :
    (r : Register) (gs hs : List Grant)
    → apply_grants r (gs ++ hs) ≡ apply_grants (apply_grants r gs) hs
unfolding apply_grants
apply_grants-append r [] hs = refl
apply_grants-append r (g ∷ gs) hs = apply_grants-append (apply_grant r g) gs hs

after_forward :
    (r : Register) (before : List Grant) (g : Grant) (after : List Grant)
    → NoForward after
    → SameForward (apply_grant (apply_grants r before) g) (apply_grants r (before ++ (g ∷ after)))
after_forward r before g after n =
    rw apply_grants-append
      (unfold apply_grants in NoForward-same (apply_grant (apply_grants r before) g) after n)

abbrev pub checker_after : List Grant → Checker
checker_after gs = build_checker (apply_grants new_register gs)

-- What the checks read of a register.
check_in_register :
    (q : Register) (h : Bytes) (p : ℕ)
    → (check_port_forward_in (build_checker q) h p ≡ true)
      ↔ ((q.forward_allow ≡ 1) × Covers q.forward_host q.forward_port h p)
unfolding check_port_forward_in build_checker
check_in_register q h p = (
  λ e. ground (arith, bytes_equal_iff q.forward_host [], bytes_equal_iff h q.forward_host),
  λ e. ground (arith, bytes_equal_iff q.forward_host [], bytes_equal_iff h q.forward_host),
)

check_out_register :
    (q : Register) (h : Bytes) (p : ℕ)
    → (check_port_forward_out (build_checker q) h p ≡ true)
      ↔ ((q.forward_allow ≡ 2) × Covers q.forward_host q.forward_port h p)
unfolding check_port_forward_out build_checker
check_out_register q h p = (
  λ e. ground (arith, bytes_equal_iff q.forward_host [], bytes_equal_iff h q.forward_host),
  λ e. ground (arith, bytes_equal_iff q.forward_host [], bytes_equal_iff h q.forward_host),
)

Covers-subst :
    {a b : Bytes} {m n : ℕ} (h : Bytes) (p : ℕ) → a ≡ b → m ≡ n → Covers a m h p → Covers b n h p
Covers-subst h p e f c = ground arith

Origin-GrantedIn :
    (gs : List Grant) (h : Bytes) (p : ℕ) (q : Register)
    → Origin new_register gs q
    → q.forward_allow ≡ 1
    → Covers q.forward_host q.forward_port h p
    → GrantedIn gs h p
unfolding new_register
Origin-GrantedIn gs h p q (kept n a b c) e v = absurd (omega arith)
Origin-GrantedIn gs h p q (by_out b host port a s l x y z) e v = absurd (omega arith)
Origin-GrantedIn gs h p q (by_in b host port a s l x y z) e v = record {
  before = b;
  host = host;
  port = port;
  after = a;
  split = s;
  is_last = l;
  covers = Covers-subst h p y z v;
}

Origin-GrantedOut :
    (gs : List Grant) (h : Bytes) (p : ℕ) (q : Register)
    → Origin new_register gs q
    → q.forward_allow ≡ 2
    → Covers q.forward_host q.forward_port h p
    → GrantedOut gs h p
unfolding new_register
Origin-GrantedOut gs h p q (kept n a b c) e v = absurd (omega arith)
Origin-GrantedOut gs h p q (by_in b host port a s l x y z) e v = absurd (omega arith)
Origin-GrantedOut gs h p q (by_out b host port a s l x y z) e v = record {
  before = b;
  host = host;
  port = port;
  after = a;
  split = s;
  is_last = l;
  covers = Covers-subst h p y z v;
}

GrantedIn-register :
    (gs : List Grant) (h : Bytes) (p : ℕ)
    → GrantedIn gs h p
    → let q = apply_grants new_register gs in
      (q.forward_allow ≡ 1) × Covers q.forward_host q.forward_port h p
unfolding apply_grant
GrantedIn-register gs h p g =
    let s = after_forward new_register g.before (forward_in g.host g.port) g.after g.is_last in
    rw g.split (s.allow, Covers-subst h p (sym s.host) (sym s.port) g.covers)

GrantedOut-register :
    (gs : List Grant) (h : Bytes) (p : ℕ)
    → GrantedOut gs h p
    → let q = apply_grants new_register gs in
      (q.forward_allow ≡ 2) × Covers q.forward_host q.forward_port h p
unfolding apply_grant
GrantedOut-register gs h p g =
    let s = after_forward new_register g.before (forward_out g.host g.port) g.after g.is_last in
    rw g.split (s.allow, Covers-subst h p (sym s.host) (sym s.port) g.covers)

-- After any list of grants, an address passes the inbound check exactly when the last forward
-- grant is an inbound one that is the wildcard ("" and 0) or names that host and port.
check_in_iff :
    (gs : List Grant) (h : Bytes) (p : ℕ)
    → (check_port_forward_in (checker_after gs) h p ≡ true) ↔ GrantedIn gs h p
check_in_iff gs h p =
    let q = apply_grants new_register gs in
    let r = check_in_register q h p in
    (
      λ e. Origin-GrantedIn gs h p q (origin new_register gs) (r.0 e).0 (r.0 e).1,
      λ g. r.1 (GrantedIn-register gs h p g),
    )

-- After any list of grants, an address passes the outbound check exactly when the last forward
-- grant is an outbound one that is the wildcard ("" and 0) or names that host and port.
check_out_iff :
    (gs : List Grant) (h : Bytes) (p : ℕ)
    → (check_port_forward_out (checker_after gs) h p ≡ true) ↔ GrantedOut gs h p
check_out_iff gs h p =
    let q = apply_grants new_register gs in
    let r = check_out_register q h p in
    (
      λ e. Origin-GrantedOut gs h p q (origin new_register gs) (r.0 e).0 (r.0 e).1,
      λ g. r.1 (GrantedOut-register gs h p g),
    )

-- After any list of grants, an address passes the inbound check exactly when the last forward grant is
-- an inbound one, and the outbound check exactly when it is an outbound one, that is the wildcard (""
-- and 0) or names that host and port.
pub checks_iff :
    (gs : List Grant) (h : Bytes) (p : ℕ)
    → ((check_port_forward_in (checker_after gs) h p ≡ true) ↔ GrantedIn gs h p)
      × ((check_port_forward_out (checker_after gs) h p ≡ true) ↔ GrantedOut gs h p)
checks_iff gs h p = (check_in_iff gs h p, check_out_iff gs h p)
