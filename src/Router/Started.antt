-- ===== src/Router/Started.antt =====
-- What holds of every client that has started.
use mathlib.Core.Path.{subst}
use ech_rust.Base.Maps.{Map, get, contains_key}
use ech_rust.Base.Net.{IpAddr}
use ech_rust.Base.Text.{Text, same, is_empty}
use ech_rust.Base.{
  map_err, ℕ, ◌≡◌, refl, ap, ◌∙◌, Bool, true, not, [], ◌∷◌, ◌++◌, Option, none, some, Result, ok,
  err, guard, >>=-eq-ok, guard-eq-ok, any, Bool-cases, inl, inr,
}
use ech_rust.ChinaIp.Table.Load.{file_lines, load-contains}
use ech_rust.ChinaIp.Table.Rows.{AddrLaws, line_holds}
use ech_rust.ChinaIp.Table.{AddrParsers, load}
use ech_rust.ChinaIp.{contains}
use ech_rust.Pool.Rotation.{connect_pools-get}
use ech_rust.Config.{BackendConfig, RouteConfig}
use ech_rust.Pool.{BackendPool, no_backends, connect}
use ech_rust.Router.Decisions.{direct_target, decision, decide-eq}
use ech_rust.Router.{Router, Names, decide, bad_users, bad_table, bad_pool, start}
use ech_rust.Users.Grants.{authenticate-Grants}
use ech_rust.Users.{
  UserConfig, UserProfile, AuthStore, backend_missing, from_config, authenticate,
  validate_users_backends,
}

validate_users_backends-contains_key :
    {B : Type 0} (users : Map UserConfig) (backends : Map B) (name : Text) (u : UserConfig)
    → validate_users_backends users backends ≡ ok tt
    → get name users ≡ some u
    → contains_key u.backend backends ≡ true
unfolding validate_users_backends
validate_users_backends-contains_key [] backends name u e h = cc
validate_users_backends-contains_key ((k, v) ∷ rest) backends name u e h =
    let (_, known, e1) =
      >>=-eq-ok (guard (contains_key v.backend backends) (backend_missing k v.backend)) _ e in
    elim (Bool-cases (same k name)) [
      | inl hit ↦
          let h' = rw hit at h in
          subst (λ (w : UserConfig). contains_key w.backend backends ≡ true)
            (ap (elim [ some w ↦ w | none ↦ v ]) h') (guard-eq-ok _ _ known)
      | inr miss ↦
          let h' = rw miss at h in validate_users_backends-contains_key rest backends name u e1 h'
    ]

pub map_err-eq-ok {κ ℓ μ} :
    {E : Type κ} {F : Type ℓ} {A : Type μ} (f : E → F) (r : Result E A) {a : A}
    → map_err f r ≡ ok a
    → r ≡ ok a
map_err-eq-ok f (ok a) h = ap (elim [ ok b ↦ ok b | err _ ↦ ok a ]) h
map_err-eq-ok f (err e) h = cc

pub start-from_config :
    {C W F : Type 0} (parsers : AddrParsers)
    (connect_channel : BackendConfig → W → Result F (C × W)) (v4_file v6_file : Option Text)
    (route : RouteConfig) (users : Map UserConfig) (backends : Map BackendConfig) (auth : AuthStore)
    (router : Router C) (w w' : W)
    → start parsers connect_channel v4_file v6_file route users backends w ≡ ok ((auth, router), w')
    → from_config users ≡ ok auth
unfolding start
start-from_config parsers connect_channel v4_file v6_file route users backends auth router w w'
      started =
    let (auth', a, e1) = >>=-eq-ok (map_err bad_users (from_config users)) _ started in
    let (set, _, e2) = >>=-eq-ok (map_err bad_table (load parsers v4_file v6_file)) _ e1 in
    let (pools, _, e3) = >>=-eq-ok (map_err bad_pool (connect connect_channel backends w)) _ e2 in
    let (_, _, e4) = >>=-eq-ok (map_err bad_users (validate_users_backends users backends)) _ e3 in
    map_err-eq-ok bad_users _ a ∙ ap (elim [ ok s ↦ ok s.0.0 | err _ ↦ ok auth' ]) e4

pub start-connect :
    {C W F : Type 0} (parsers : AddrParsers)
    (connect_channel : BackendConfig → W → Result F (C × W)) (v4_file v6_file : Option Text)
    (route : RouteConfig) (users : Map UserConfig) (backends : Map BackendConfig) (auth : AuthStore)
    (router : Router C) (w w' : W)
    → start parsers connect_channel v4_file v6_file route users backends w ≡ ok ((auth, router), w')
    → connect connect_channel backends w ≡ ok (router.pools, w')
unfolding start
start-connect parsers connect_channel v4_file v6_file route users backends auth router w w'
      started =
    let (_, _, e1) = >>=-eq-ok (map_err bad_users (from_config users)) _ started in
    let (_, _, e2) = >>=-eq-ok (map_err bad_table (load parsers v4_file v6_file)) _ e1 in
    let ((pools, w1), p, e3) =
      >>=-eq-ok (map_err bad_pool (connect connect_channel backends w)) _ e2 in
    let (_, _, e4) = >>=-eq-ok (map_err bad_users (validate_users_backends users backends)) _ e3 in
    map_err-eq-ok bad_pool _ p
    ∙ ap (elim [ ok s ↦ ok (s.0.1.pools, s.1) | err _ ↦ ok (pools, w1) ]) e4

-- Where the client starts, every user whose credentials it accepts has a pool, and a connection of
-- that user is decided as `direct_target` says: to the target itself where it is an address that a
-- line of the two files holds; under `system_dns`, to a name's first address where they hold all of
-- its addresses, and by the resolver's error where it fails; otherwise through the pool. No backend
-- is missing and no index panics. The parsers are held to the laws `AddrLaws`.
pub start-decide :
    {C W F : Type 0} (parsers : AddrParsers) (laws : AddrLaws parsers)
    (connect_channel : BackendConfig → W → Result F (C × W)) (v4_file v6_file : Option Text)
    (route : RouteConfig) (users : Map UserConfig) (backends : Map BackendConfig) (auth : AuthStore)
    (router : Router C) (name password : Text) (u : UserProfile) (names : Names) (host : Text)
    (port : ℕ) (w w' : W)
    → start parsers connect_channel v4_file v6_file route users backends w ≡ ok ((auth, router), w')
    → authenticate auth name password ≡ some u
    → (pool : BackendPool C) × (get u.backend router.pools ≡ some pool)
      × (decide names router u host port
          ≡ decision pool (
              direct_target
                (λ ip. any (line_holds parsers ip) (file_lines v4_file ++ file_lines v6_file))
                names
                route
                host
                port))
unfolding start connect
start-decide {C = C} parsers laws connect_channel v4_file v6_file route users backends auth router
      name password u names host port w w' started accepted =
    let (auth', a, e1) = >>=-eq-ok (map_err bad_users (from_config users)) _ started in
    let (set, t, e2) = >>=-eq-ok (map_err bad_table (load parsers v4_file v6_file)) _ e1 in
    let ((pools, w1), p, e3) =
      >>=-eq-ok (map_err bad_pool (connect connect_channel backends w)) _ e2 in
    let (_, v, e4) = >>=-eq-ok (map_err bad_users (validate_users_backends users backends)) _ e3 in
    let (_, _, connected) =
      >>=-eq-ok (guard (not (is_empty backends)) no_backends) _ (map_err-eq-ok bad_pool _ p) in
    let same_auth : auth' ≡ auth = ap (elim [ ok s ↦ s.0.0 | err _ ↦ auth' ]) e4 in
    let same_router : (record { route = route; china_ip = set; pools = pools }) ≡ router =
      ap (elim [ ok s ↦ s.0.1 | err _ ↦ router ]) e4 in
    let configured : from_config users ≡ ok auth = map_err-eq-ok bad_users _ a ∙ ap ok same_auth in
    let granted = (authenticate-Grants users auth name password u configured).0 accepted in
    let known =
      validate_users_backends-contains_key users backends name granted.entry
        (map_err-eq-ok bad_users _ v) granted.listed in
    let (pool, found) =
      connect_pools-get connect_channel backends w w1 pools granted.entry.backend connected known in
    let hold : IpAddr → Bool =
      λ ip. any (line_holds parsers ip) (file_lines v4_file ++ file_lines v6_file) in
    let own : get u.backend pools ≡ some pool =
      ap (λ (q : UserProfile). get q.backend pools) granted.profile ∙ found in
    let law : (ip : IpAddr) → contains set ip ≡ some (hold ip) =
      λ ip. load-contains parsers laws v4_file v6_file set ip (map_err-eq-ok bad_table _ t) in
    subst
      (λ (r : Router C).
        (pool : BackendPool C) × (get u.backend r.pools ≡ some pool)
        × (decide names r u host port ≡ decision pool (direct_target hold names route host port)))
      same_router
      (
        pool,
        own,
        decide-eq hold set law names (record { route = route; china_ip = set; pools = pools }) u
            pool host port refl own,
      )
