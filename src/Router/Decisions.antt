-- ===== src/Router/Decisions.antt =====
-- What a decision comes to, where the tables answer as `holds` does.
use ech_rust.Base.Maps.{get}
use ech_rust.Base.Net.{IpAddr, SocketAddr}
use ech_rust.Base.Text.{Text}
use ech_rust.Base.{
  ℕ, ◌≡◌, refl, Bool, true, false, ◌&&◌, List, [], ◌∷◌, Option, none, some, Result, ok, err, ◌>>=◌,
  ok_or, all, Bool-cases, inl, inr, if◌then◌else◌,
}
use ech_rust.ChinaIp.{ChinaIpSet, contains}
use ech_rust.Pool.{BackendPool}
use ech_rust.Config.{DomainStrategy, remote_for_proxy, system_dns, RouteConfig}
use ech_rust.Router.{
  Router, RouteDecision, direct, proxy, RouteError, lookup_failed, backend_not_found, panicked,
  Names, lookup_error, all_contained, classify_addrs, classify_domain, literal_host, domain_host,
  shown, direct_host, decide,
}
use ech_rust.Users.{UserProfile}

-- The host that a resolved name is connected to directly: the first address, where all are held.
abbrev resolved_host : (IpAddr → Bool) → Names → List SocketAddr → Option Text
resolved_host holds names [] = none
resolved_host holds names (addr ∷ addrs) =
    if all (λ (a : SocketAddr). holds a.ip) (addr ∷ addrs)
    then some (names.show_ip addr.ip)
    else none

-- The host that a target is connected to directly, where `holds` says which addresses the tables
-- hold; an error is one of the system's resolver.
abbrev pub direct_target :
    (IpAddr → Bool) → Names → RouteConfig → Text → ℕ → Result Text (Option Text)
direct_target holds names route host port = elim route.china_ip_direct [
  | false ↦ ok none
  | true ↦ elim (names.parse_ip host) [
    | some ip ↦ ok (if holds ip then some host else none)
    | none ↦ elim route.domain_strategy [
      | remote_for_proxy ↦ ok none
      | system_dns ↦ elim (names.lookup_host host port) [
        | err e ↦ err e
        | ok addrs ↦ ok (resolved_host holds names addrs)
      ]
    ]
  ]
]

-- The decision, where `pool` is the user's own.
abbrev pub decision :
    {C : Type 0} → BackendPool C → Result Text (Option Text) → Result RouteError (RouteDecision C)
decision pool (err e) = err (lookup_failed e)
decision pool (ok (some host)) = ok (direct host)
decision pool (ok none) = ok (proxy pool)

module _ (holds : IpAddr → Bool) (set : ChinaIpSet)
    (law : (ip : IpAddr) → contains set ip ≡ some (holds ip)) where
  all_contained-eq :
      (addrs : List SocketAddr)
      → all_contained set addrs ≡ ok (all (λ (a : SocketAddr). holds a.ip) addrs)
  unfolding all_contained
  all_contained-eq [] = refl
  all_contained-eq (addr ∷ addrs) = rw (law addr.ip) (go (holds addr.ip) (all_contained-eq addrs))
    where
      go :
          (b : Bool) {rest : Bool}
          → all_contained set addrs ≡ ok rest
          → (elim b [ false ↦ ok false | true ↦ all_contained set addrs ]) ≡ ok (b && rest)
      go true h = h
      go false h = refl

  classify_addrs-eq :
      (names : Names) (addrs : List SocketAddr)
      → (classify_addrs set addrs >>= λ found. ok (shown names found))
        ≡ ok (resolved_host holds names addrs)
  unfolding classify_addrs
  classify_addrs-eq names [] = refl
  classify_addrs-eq names (addr ∷ addrs) =
      let inside = all_contained-eq (addr ∷ addrs) in
      elim (Bool-cases (all (λ (a : SocketAddr). holds a.ip) (addr ∷ addrs))) [
        | inl every ↦ rw (inside, every) refl
        | inr other ↦ rw (inside, other) refl
      ]

  domain_host-eq :
      (names : Names) (host : Text) (port : ℕ) (strategy : DomainStrategy)
      → (elim strategy [
        | remote_for_proxy ↦ ok none
        | system_dns ↦ do found ← classify_domain names set host port; ok (shown names found)
      ])
        ≡ lookup_error (elim strategy [
          | remote_for_proxy ↦ ok none
          | system_dns ↦ elim (names.lookup_host host port) [
            | err e ↦ err e
            | ok addrs ↦ ok (resolved_host holds names addrs)
          ]
        ])
  unfolding classify_domain
  domain_host-eq names host port remote_for_proxy = refl
  domain_host-eq names host port system_dns = go (names.lookup_host host port)
    where
      go :
          (r : Result Text (List SocketAddr))
          → ((lookup_error r >>= classify_addrs set) >>= λ found. ok (shown names found))
            ≡ lookup_error
                (elim r [ err e ↦ err e | ok addrs ↦ ok (resolved_host holds names addrs) ])
      go (err e) = refl
      go (ok addrs) = classify_addrs-eq names addrs

  direct_host-eq :
      (names : Names) (route : RouteConfig) (host : Text) (port : ℕ)
      → direct_host names route set host port
        ≡ lookup_error (direct_target holds names route host port)
  unfolding direct_host domain_host literal_host
  direct_host-eq names route host port =
      go route.china_ip_direct (names.parse_ip host) _
        (domain_host-eq names host port route.domain_strategy)
    where
      go :
          (c : Bool) (o : Option IpAddr) {d : Result RouteError (Option Text)}
          (t : Result Text (Option Text))
          → d ≡ lookup_error t
          → (elim c [
            | false ↦ ok none
            | true ↦ elim o [
              | some ip ↦ do
                inside ← ok_or panicked (contains set ip)
                ok (if inside then some host else none)
              | none ↦ d
            ]
          ])
            ≡ lookup_error (elim c [
              | false ↦ ok none
              | true ↦ elim o [ some ip ↦ ok (if holds ip then some host else none) | none ↦ t ]
            ])
      go false o t h = refl
      go true (some ip) t h = rw (law ip) refl
      go true none t h = h

  pub decide-eq :
      {C : Type 0} (names : Names) (r : Router C) (u : UserProfile) (pool : BackendPool C)
      (host : Text) (port : ℕ)
      → r.china_ip ≡ set
      → get u.backend r.pools ≡ some pool
      → decide names r u host port ≡ decision pool (direct_target holds names r.route host port)
  unfolding decide
  decide-eq names r u pool host port same_set found =
      rw (same_set, direct_host-eq names r.route host port)
        (go (direct_target holds names r.route host port))
    where
      go :
          (t : Result Text (Option Text))
          → (lookup_error t >>= elim [
            | some connect_host ↦ ok (direct connect_host)
            | none ↦ do
              pool ← ok_or (backend_not_found u.backend) (get u.backend r.pools)
              ok (proxy pool)
          ])
            ≡ decision pool t
      go (err e) = refl
      go (ok (some h)) = refl
      go (ok none) = rw found refl
