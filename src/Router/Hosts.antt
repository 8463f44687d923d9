-- ===== src/Router/Hosts.antt =====
-- Which hosts are connected to directly.
use ech_rust.Base.Net.{IpAddr}
use ech_rust.Base.Text.{Text}
use ech_rust.Base.Maps.{get}
use ech_rust.Base.{
  ℕ, Bool, true, false, Option, none, some, ok, ◌>>=◌, if◌then◌else◌, ok_or, Holds, Holds->>=,
  Holds-refl,
}
use ech_rust.ChinaIp.{ChinaIpSet, contains}
use ech_rust.Config.{RouteConfig, DomainStrategy, remote_for_proxy, system_dns}
use ech_rust.Router.{
  Names, Router, RouteDecision, direct, proxy, panicked, backend_not_found, decide, direct_host,
  domain_host, literal_host, classify_domain, shown,
}
use ech_rust.Users.{UserProfile}

-- What holds of the host that is asked for and of every printed address holds of the host that is
-- connected to.
module _ (P : Text → Type 0) (names : Names) (shows : (ip : IpAddr) → P (names.show_ip ip)) where
  abbrev Each : Option Text → Type 0
  Each none = Unit
  Each (some host) = P host

  abbrev pub DirectTo : {C : Type 0} → RouteDecision C → Type 0
  DirectTo (direct host) = P host
  DirectTo (proxy pool) = Unit

  shown-Each : (o : Option IpAddr) → Each (shown names o)
  shown-Each none = tt
  shown-Each (some ip) = shows ip

  direct_host-Each :
      (route : RouteConfig) (set : ChinaIpSet) (host : Text) (port : ℕ)
      → P host
      → Holds Each (direct_host names route set host port)
  unfolding direct_host literal_host domain_host
  direct_host-Each route set host port h = go route.china_ip_direct (names.parse_ip host)
    where
      chosen : (b : Bool) → Each (if b then some host else none)
      chosen true = h
      chosen false = tt

      named :
          (s : DomainStrategy)
          → Holds Each (elim s [
            | remote_for_proxy ↦ ok none
            | system_dns ↦ do found ← classify_domain names set host port; ok (shown names found)
          ])
      named remote_for_proxy = tt
      named system_dns =
          Holds->>= _ _ (classify_domain names set host port) _
            (Holds-refl (classify_domain names set host port)) (λ found _. shown-Each found)

      go :
          (b : Bool) (o : Option IpAddr)
          → Holds Each (elim b [
            | false ↦ ok none
            | true ↦ elim o [
              | some ip ↦ literal_host set host ip
              | none ↦ domain_host names route set host port
            ]
          ])
      go false o = tt
      go true none = named route.domain_strategy
      go true (some ip) =
          Holds->>= _ _ (ok_or panicked (contains set ip)) _
            (Holds-refl (ok_or panicked (contains set ip))) (λ inside _. chosen inside)

  pub decide-DirectTo :
      {C : Type 0} (router : Router C) (user : UserProfile) (host : Text) (port : ℕ)
      → P host
      → Holds DirectTo (decide names router user host port)
  unfolding decide
  decide-DirectTo {C} router user host port h =
      Holds->>= _ _ (direct_host names router.route router.china_ip host port) _
        (direct_host-Each router.route router.china_ip host port h) go
    where
      go :
          (o : Option Text)
          → Each o
          → Holds (DirectTo {C = C}) (elim o [
            | some connect_host ↦ ok (direct connect_host)
            | none ↦ do
              pool ← ok_or (backend_not_found user.backend) (get user.backend router.pools)
              ok (proxy pool)
          ])
      go (some connect_host) k = k
      go none k =
          Holds->>= _ _ (ok_or (backend_not_found user.backend) (get user.backend router.pools)) _
            (Holds-refl (ok_or (backend_not_found user.backend) (get user.backend router.pools)))
            (λ pool _. tt)
