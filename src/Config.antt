-- ===== src/Config.antt =====
-- client/src/config.rs: the configuration, and what a key that the file leaves out stands for. A
-- table holds what TOML gives for each key.
use ech_rust.Base.Text.{Text, codes}
use ech_rust.Base.Maps.{Map}
use ech_rust.Base.{
  ℕ, Bool, true, false, [], ◌∷◌, Option, none, some, Result, ok, ◌>>=◌, ok_or, unwrap_or,
}
use ech_rust.Users.{UserConfig}

-- `missing field`, with its name.
pub data ConfigError : Type 0 where
  missing_field : Text → ConfigError

pub record BackendConfig : Type 0 where
  pub endpoint : Text
  pub connect_addr : Option Text
  pub auth_token : Text
  pub ech : Bool
  pub ech_name : Option Text
  pub ech_bootstrap_doh : Option Text
  pub pool_size : ℕ
  pub max_streams_per_channel : ℕ
  pub ech_policy : Option Text
  pub tls_domain : Option Text
  pub ca_cert : Option Text
  pub connect_timeout_ms : ℕ

pub record EchConfig : Type 0 where
  pub bootstrap_doh : Text
  pub policy : Text

pub data DomainStrategy : Type 0 where
  remote_for_proxy system_dns : DomainStrategy

pub record RouteConfig : Type 0 where
  pub china_ip_direct : Bool
  pub domain_strategy : DomainStrategy
  pub china_ipv4_cidrs : Text
  pub china_ipv6_cidrs : Text

pub record ListenConfig : Type 0 where
  pub socks5 : Text
  pub http : Text
  pub socks5_allow_no_auth : Bool
  pub socks5_default_user : Option Text

abbrev pub default_socks5_listen : Text
default_socks5_listen = codes "127.0.0.1:1080"

abbrev pub default_http_listen : Text
default_http_listen = codes "127.0.0.1:8080"

abbrev pub default_geoip_v4 : Text
default_geoip_v4 = codes "chn_ip.txt"

abbrev pub default_geoip_v6 : Text
default_geoip_v6 = codes "chn_ip_v6.txt"

abbrev pub default_domain_strategy : DomainStrategy
default_domain_strategy = remote_for_proxy

abbrev pub default_pool_size : ℕ
default_pool_size = 2

abbrev pub default_max_streams_per_channel : ℕ
default_max_streams_per_channel = 128

abbrev pub default_ech_bootstrap_doh : Text
default_ech_bootstrap_doh = codes "https://dns.alidns.com/dns-query"

abbrev pub default_ech_policy : Text
default_ech_policy = codes "strict"

abbrev pub default_connect_timeout_ms : ℕ
default_connect_timeout_ms = 8000

pub record BackendTable : Type 0 where
  pub endpoint : Option Text
  pub connect_addr : Option Text
  pub auth_token : Option Text
  pub ech : Option Bool
  pub ech_name : Option Text
  pub ech_bootstrap_doh : Option Text
  pub pool_size : Option ℕ
  pub max_streams_per_channel : Option ℕ
  pub ech_policy : Option Text
  pub tls_domain : Option Text
  pub ca_cert : Option Text
  pub connect_timeout_ms : Option ℕ

unfoldable pub read_backend : BackendTable → Result ConfigError BackendConfig
read_backend t = do
  endpoint ← ok_or (missing_field (codes "endpoint")) t.endpoint
  auth_token ← ok_or (missing_field (codes "auth_token")) t.auth_token
  ok (record {
    endpoint = endpoint;
    connect_addr = t.connect_addr;
    auth_token = auth_token;
    ech = unwrap_or t.ech false;
    ech_name = t.ech_name;
    ech_bootstrap_doh = t.ech_bootstrap_doh;
    pool_size = unwrap_or t.pool_size default_pool_size;
    max_streams_per_channel = unwrap_or t.max_streams_per_channel default_max_streams_per_channel;
    ech_policy = t.ech_policy;
    tls_domain = t.tls_domain;
    ca_cert = t.ca_cert;
    connect_timeout_ms = unwrap_or t.connect_timeout_ms default_connect_timeout_ms;
  })

pub record EchTable : Type 0 where
  pub bootstrap_doh : Option Text
  pub policy : Option Text

-- `none` where the file has no such table: `EchConfig::default`.
unfoldable pub read_ech : Option EchTable → EchConfig
read_ech none = record { bootstrap_doh = default_ech_bootstrap_doh; policy = default_ech_policy }
read_ech (some t) = record {
  bootstrap_doh = unwrap_or t.bootstrap_doh default_ech_bootstrap_doh;
  policy = unwrap_or t.policy default_ech_policy;
}

pub record ListenTable : Type 0 where
  pub socks5 : Option Text
  pub http : Option Text
  pub socks5_allow_no_auth : Option Bool
  pub socks5_default_user : Option Text

unfoldable pub read_listen : ListenTable → ListenConfig
read_listen t = record {
  socks5 = unwrap_or t.socks5 default_socks5_listen;
  http = unwrap_or t.http default_http_listen;
  socks5_allow_no_auth = unwrap_or t.socks5_allow_no_auth false;
  socks5_default_user = t.socks5_default_user;
}

pub record RouteTable : Type 0 where
  pub china_ip_direct : Option Bool
  pub domain_strategy : Option DomainStrategy
  pub china_ipv4_cidrs : Option Text
  pub china_ipv6_cidrs : Option Text

-- `none` where the file has no such table: `RouteConfig::default`.
unfoldable pub read_route : Option RouteTable → RouteConfig
read_route none = record {
  china_ip_direct = true;
  domain_strategy = default_domain_strategy;
  china_ipv4_cidrs = default_geoip_v4;
  china_ipv6_cidrs = default_geoip_v6;
}
read_route (some t) = record {
  china_ip_direct = unwrap_or t.china_ip_direct true;
  domain_strategy = unwrap_or t.domain_strategy default_domain_strategy;
  china_ipv4_cidrs = unwrap_or t.china_ipv4_cidrs default_geoip_v4;
  china_ipv6_cidrs = unwrap_or t.china_ipv6_cidrs default_geoip_v6;
}

pub record Config : Type 0 where
  pub listen : ListenConfig
  pub users : Map UserConfig
  pub backends : Map BackendConfig
  pub ech : EchConfig
  pub route : RouteConfig

-- A file that TOML accepts.
pub record ConfigTable : Type 0 where
  pub listen : ListenTable
  pub users : Option (Map UserConfig)
  pub backends : Option (Map BackendTable)
  pub ech : Option EchTable
  pub route : Option RouteTable

unfoldable pub read_backends : Map BackendTable → Result ConfigError (Map BackendConfig)
unfolding read_backend
read_backends [] = ok []
read_backends ((id, t) ∷ rest) = do
  backend ← read_backend t
  backends ← read_backends rest
  ok ((id, backend) ∷ backends)

unfoldable pub read_config : ConfigTable → Result ConfigError Config
unfolding read_backends read_listen read_ech read_route
read_config t = do
  backends ← read_backends (unwrap_or t.backends [])
  ok (record {
    listen = read_listen t.listen;
    users = unwrap_or t.users [];
    backends = backends;
    ech = read_ech t.ech;
    route = read_route t.route;
  })

-- `BackendConfig::effective_ech_bootstrap_doh`
abbrev pub effective_ech_bootstrap_doh : BackendConfig → EchConfig → Text
effective_ech_bootstrap_doh backend ech = unwrap_or backend.ech_bootstrap_doh ech.bootstrap_doh

-- `BackendConfig::effective_ech_policy`
abbrev pub effective_ech_policy : BackendConfig → EchConfig → Text
effective_ech_policy backend ech = unwrap_or backend.ech_policy ech.policy
