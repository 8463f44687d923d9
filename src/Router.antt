-- ===== src/Router.antt =====
-- client/src/router.rs: which connections go out directly, and the start of the client in
-- client/src/main.rs.
pub mod Decisions
pub mod Started
pub mod Hosts
use ech_rust.Base.Maps.{Map, get}
use ech_rust.Base.Net.{IpAddr, SocketAddr}
use ech_rust.Base.Text.{Text, is_empty}
use ech_rust.Base.{
  map_err, ℕ, Bool, true, false, ◌&&◌, List, [], ◌∷◌, Option, none, some, Result, ok, err, ◌>>=◌,
  ◌>>◌, ok_or, if◌then◌else◌,
}
use ech_rust.ChinaIp.Table.{AddrParsers, TableError, load}
use ech_rust.ChinaIp.{ChinaIpSet, contains}
use ech_rust.Config.{BackendConfig, remote_for_proxy, system_dns, RouteConfig}
use ech_rust.Pool.{BackendPool, PoolError, connect}
use ech_rust.Users.{
  UserConfig, UserProfile, UsersError, AuthStore, from_config, validate_users_backends,
}

pub record Router (C : Type 0) : Type 0 where
  pub route : RouteConfig
  pub china_ip : ChinaIpSet
  pub pools : Map (BackendPool C)

pub data RouteDecision (C : Type 0) : Type 0 where
  direct : Text → RouteDecision C
  proxy : BackendPool C → RouteDecision C

-- `panicked` is an index out of bounds in the table.
pub data RouteError : Type 0 where
  lookup_failed : Text → RouteError
  backend_not_found : Text → RouteError
  panicked : RouteError

-- `str::parse::<IpAddr>`, `lookup_host` and `IpAddr::to_string`.
pub record Names : Type 0 where
  pub parse_ip : Text → Option IpAddr
  pub lookup_host : Text → ℕ → Result Text (List SocketAddr)
  pub show_ip : IpAddr → Text

abbrev pub lookup_error {ℓ} : {A : Type ℓ} → Result Text A → Result RouteError A
lookup_error (ok a) = ok a
lookup_error (err e) = err (lookup_failed e)

-- `ips.iter().all(..)`, which stops at the first address that is not in the table.
pub all_contained : ChinaIpSet → List SocketAddr → Result RouteError Bool
all_contained set [] = ok true
all_contained set (addr ∷ addrs) =
    ok_or panicked (contains set addr.ip)
    >>= elim [ false ↦ ok false | true ↦ all_contained set addrs ]

pub classify_addrs : ChinaIpSet → List SocketAddr → Result RouteError (Option IpAddr)
unfolding all_contained
classify_addrs set [] = ok none
classify_addrs set (addr ∷ addrs) = do
  inside ← all_contained set (addr ∷ addrs)
  ok (if inside then some addr.ip else none)

pub classify_domain : Names → ChinaIpSet → Text → ℕ → Result RouteError (Option IpAddr)
unfolding classify_addrs
classify_domain names set host port = do
  addrs ← lookup_error (names.lookup_host host port)
  classify_addrs set addrs

-- The host to connect to directly, on what `parse::<IpAddr>` gives for the target.
pub literal_host : ChinaIpSet → Text → IpAddr → Result RouteError (Option Text)
literal_host set host ip = do
  inside ← ok_or panicked (contains set ip)
  ok (if inside then some host else none)

-- `ip.to_string()`
abbrev pub shown : Names → Option IpAddr → Option Text
shown names none = none
shown names (some ip) = some (names.show_ip ip)

pub domain_host : Names → RouteConfig → ChinaIpSet → Text → ℕ → Result RouteError (Option Text)
unfolding classify_domain
domain_host names route set host port = elim route.domain_strategy [
  | remote_for_proxy ↦ ok none
  | system_dns ↦ do found ← classify_domain names set host port; ok (shown names found)
]

pub direct_host : Names → RouteConfig → ChinaIpSet → Text → ℕ → Result RouteError (Option Text)
unfolding literal_host domain_host
direct_host names route set host port = elim route.china_ip_direct [
  | false ↦ ok none
  | true ↦ elim (names.parse_ip host) [
    | some ip ↦ literal_host set host ip
    | none ↦ domain_host names route set host port
  ]
]

unfoldable pub decide :
    {C : Type 0} → Names → Router C → UserProfile → Text → ℕ → Result RouteError (RouteDecision C)
unfolding direct_host
decide names r user host port = direct_host names r.route r.china_ip host port >>= elim [
  | some connect_host ↦ ok (direct connect_host)
  | none ↦ do
    pool ← ok_or (backend_not_found user.backend) (get user.backend r.pools)
    ok (proxy pool)
]

pub data StartError (F : Type 0) : Type 0 where
  bad_users : UsersError → StartError F
  bad_table : TableError → StartError F
  bad_pool : PoolError F → StartError F

-- `run`, from the configuration on, up to where it starts to listen.
unfoldable pub start :
    {C W F : Type 0}
    → AddrParsers
    → (BackendConfig → W → Result F (C × W))
    → Option Text
    → Option Text
    → RouteConfig
    → Map UserConfig
    → Map BackendConfig
    → W
    → Result (StartError F) ((AuthStore × Router C) × W)
start parsers connect_channel v4_file v6_file route users backends w = do
  auth ← map_err bad_users (from_config users)
  china_ip ← map_err bad_table (load parsers v4_file v6_file)
  (pools, w1) ← map_err bad_pool (connect connect_channel backends w)
  map_err bad_users (validate_users_backends users backends)
  ok ((auth, record { route = route; china_ip = china_ip; pools = pools }), w1)
