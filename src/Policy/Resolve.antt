-- ===== src/Policy/Resolve.antt =====
-- What `resolve_target` guarantees of the addresses that it hands to `connect_any`.
use mathlib.Core.Path.{subst}
use ech_rust.Base.Net.{SocketAddr}
use ech_rust.Base.Text.{Text, is_empty, utf8_len}
use ech_rust.Base.{
  ℕ, ◌≤◌, ◌<◌, ◌≡◌, ◌≢◌, true, false, not, List, [], ◌∷◌, Option, none, some, ok, >>=-eq-ok,
  guard-eq-ok, guard, arith, ltb, ◌==◌, any, All,
}
use ech_rust.Policy.{
  Policy, invalid_port, no_addresses, port_denied, check_ip, check_addrs, check_port, is_forbidden,
  validate_host, Resolver, lookup_addrs, resolve_target,
}

-- The list of ports, if there is one, has this one.
abbrev pub IsAllowed : Option (List ℕ) → ℕ → Type 0
IsAllowed none port = Unit
IsAllowed (some allowed) port = any (λ q. q == port) allowed ≡ true

-- What an accepted target is.
pub record Permits (p : Policy) (host : Text) (port : ℕ) (addrs : List SocketAddr) : Type 0 where
  pub port_pos : 0 < port
  pub port_fits : port < 65536
  pub port_allowed : IsAllowed p.ports port
  pub host_some : 1 ≤ utf8_len host
  pub host_fits : utf8_len host ≤ 253
  pub host_clean : any is_forbidden host ≡ false
  pub addrs_some : addrs ≢ []
  pub addrs_pass : All (λ (a : SocketAddr). check_ip p a.ip ≡ ok tt) addrs

check_addrs-All :
    (p : Policy) (addrs : List SocketAddr)
    → check_addrs p addrs ≡ ok tt
    → All (λ (a : SocketAddr). check_ip p a.ip ≡ ok tt) addrs
unfolding check_addrs
check_addrs-All p [] e = tt
check_addrs-All p (a ∷ addrs) e =
    let (u, one, rest) = >>=-eq-ok (check_ip p a.ip) _ e in (one, check_addrs-All p addrs rest)

check_port-IsAllowed :
    (p : Policy) (port : ℕ) {u : Unit {0}} → check_port p port ≡ ok u → IsAllowed p.ports port
unfolding check_port
check_port-IsAllowed p port h = go p.ports h
  where
    go :
        (o : Option (List ℕ)) {u : Unit {0}}
        → (elim o [
          | none ↦ ok tt
          | some allowed ↦ guard (any (λ q. q == port) allowed) (port_denied port)
        ])
          ≡ ok u
        → IsAllowed o port
    go none h = tt
    go (some allowed) h = guard-eq-ok _ _ h

utf8_len-pos : (host : Text) → is_empty host ≡ false → 1 ≤ utf8_len host
utf8_len-pos [] h = cc
utf8_len-pos (c ∷ cs) h = ground arith

-- A target that is accepted has a port from 1 to 65535 that the list of ports, if there is one,
-- has, a host of 1 to 253 bytes with none of the forbidden ones, and at least one address, each of
-- which passes the check of the address.
pub resolve_target-Permits :
    (r : Resolver) (p : Policy) (host : Text) (port : ℕ) (addrs : List SocketAddr)
    → resolve_target r p host port ≡ ok addrs
    → Permits p host port addrs
unfolding resolve_target
resolve_target-Permits r p host port addrs e =
    let (_, below, e1) = >>=-eq-ok (guard (ltb port 65536) invalid_port) _ e in
    let (_, pos, e2) = >>=-eq-ok (guard (not (port == 0)) invalid_port) _ e1 in
    let (_, listed, e3) = >>=-eq-ok (check_port p port) _ e2 in
    let (_, valid, e4) = >>=-eq-ok (validate_host host) _ e3 in
    let (found, looked, e5) = >>=-eq-ok (lookup_addrs r host port) _ e4 in
    let (_, some_addr, e6) = >>=-eq-ok (guard (not (is_empty found)) no_addresses) _ e5 in
    let (_, checked, e7) = >>=-eq-ok (check_addrs p found) _ e6 in
    let same : found ≡ addrs = cc in
    let clean = host_facts valid in
    record {
      port_pos = ground (arith, guard-eq-ok _ _ pos);
      port_fits = ground (arith, guard-eq-ok _ _ below);
      port_allowed = check_port-IsAllowed p port listed;
      host_some = utf8_len-pos host clean.0;
      host_fits = clean.1;
      host_clean = clean.2;
      addrs_some = λ nil. ground (arith, guard-eq-ok _ _ some_addr);
      addrs_pass =
          subst (All (λ (a : SocketAddr). check_ip p a.ip ≡ ok tt)) same
            (check_addrs-All p found checked);
    }
  where
    host_facts :
        {u : Unit {0}}
        → validate_host host ≡ ok u
        → (is_empty host ≡ false) × (utf8_len host ≤ 253) × (any is_forbidden host ≡ false)
    host_facts h = unfold validate_host in ground arith
