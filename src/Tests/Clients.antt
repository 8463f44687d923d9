-- ===== src/Tests/Clients.antt =====
-- A client that starts with one user and one backend, and a server that reads its tokens.
use ech_rust.Base.Maps.{Map, get}
use ech_rust.Base.Text.{Text, codes, is_empty, trim, split}
use ech_rust.Base.{
  ◌+◌, ℕ, ◌≡◌, ◌↔◌, ◌++◌, refl, true, false, [], ◌∷◌, none, some, Result, ok, any, map,
}
use ech_rust.ChinaIp.Table.Load.{file_lines}
use ech_rust.ChinaIp.Table.Rows.{line_holds}
use ech_rust.Config.{BackendConfig, RouteConfig, remote_for_proxy}
use ech_rust.Pool.{BackendPool, connect, connect_pools, connect_pool}
use ech_rust.Router.Decisions.{direct_target, decision}
use ech_rust.Router.Started.{start-decide}
use ech_rust.Router.{Router, Names, decide, start}
use ech_rust.Tests.Tables.{parsers, laws, file4, file6, table, loads}
use ech_rust.Tokens.Bearer.{Lists, authenticate-parse_tokens}
use ech_rust.Tokens.{TokenAuth, credentials, bearer_token, new, parse_tokens}
use ech_rust.Tokens
use ech_rust.Users.Grants.{Grants, authenticate-Grants}
use ech_rust.Users.{
  UserConfig, UserProfile, AuthStore, from_config, authenticate, validate_users_backends,
}

abbrev alice : UserConfig
alice = record { backend = codes "tokyo"; password = none; password_hash = some (codes "secret") }

abbrev pub users : Map UserConfig
users = (codes "alice", alice) ∷ []

abbrev pub alice_profile : UserProfile
alice_profile = record {
  username = codes "alice";
  password = codes "secret";
  backend = codes "tokyo";
}

abbrev pub auth_store : AuthStore
auth_store = record { users = (codes "alice", alice_profile) ∷ [] }

pub auth_store_made : from_config users ≡ ok auth_store
unfolding from_config
auth_store_made = refl

authenticate-Grants_example :
    (authenticate auth_store (codes "alice") (codes "secret") ≡ some alice_profile)
    ↔ Grants users (codes "alice") (codes "secret") alice_profile
authenticate-Grants_example =
    authenticate-Grants users auth_store (codes "alice") (codes "secret") alice_profile
      auth_store_made

abbrev pub backend : BackendConfig
backend = record {
  endpoint = codes "https://tokyo.example.org";
  connect_addr = none;
  auth_token = codes "abc";
  ech = false;
  ech_name = none;
  ech_bootstrap_doh = none;
  ech_policy = none;
  tls_domain = none;
  ca_cert = none;
  connect_timeout_ms = 8000;
  pool_size = 2;
  max_streams_per_channel = 128;
}

abbrev pub connect_channel : BackendConfig → ℕ → Result Text (ℕ × ℕ)
connect_channel b i = ok (i, i + 1)

abbrev pub pool : BackendPool ℕ
pool = record { backend = backend; channels = 0 ∷ 1 ∷ []; next = 0; stream_permits = 256 }

pub pool_connected : connect_pool connect_channel backend 0 ≡ ok (pool, 2)
unfolding connect_pool
pool_connected = refl

abbrev raw_tokens : Text
raw_tokens = codes " abc ,, def"

abbrev token_auth : TokenAuth
token_auth = record { tokens = codes "abc" ∷ codes "def" ∷ [] }

tokens_parsed : parse_tokens raw_tokens ≡ ok token_auth.tokens
unfolding parse_tokens split trim
tokens_parsed = refl

token_auth_made : new token_auth.tokens ≡ ok token_auth
unfolding new
token_auth_made = refl

authenticate-parse_tokens_example :
    (Tokens.authenticate token_auth (credentials (codes "Bearer def")) ≡ ok (codes "def"))
    ↔ (bearer_token (codes "Bearer def") ≡ codes "def")
      × (is_empty (codes "def") ≡ false)
      × Lists (map trim (split b',' raw_tokens)) (codes "def")
authenticate-parse_tokens_example =
    authenticate-parse_tokens raw_tokens token_auth.tokens token_auth (codes "Bearer def")
      (codes "def") tokens_parsed token_auth_made

abbrev pub names : Names
names = record { parse_ip = λ t. none; lookup_host = λ t port. ok []; show_ip = λ ip. [] }

abbrev pub route : RouteConfig
route = record {
  china_ip_direct = true;
  domain_strategy = remote_for_proxy;
  china_ipv4_cidrs = codes "chn_ip.txt";
  china_ipv6_cidrs = codes "chn_ip_v6.txt";
}

abbrev pub router : Router ℕ
router = record { route = route; china_ip = table; pools = (codes "tokyo", pool) ∷ [] }

abbrev backends : Map BackendConfig
backends = (codes "tokyo", backend) ∷ []

started :
    start parsers connect_channel file4 file6 route users backends 0 ≡ ok ((auth_store, router), 2)
unfolding start connect connect_pools connect_pool from_config validate_users_backends
started = rw loads refl

accepted : authenticate auth_store (codes "alice") (codes "secret") ≡ some alice_profile
unfolding authenticate
accepted = refl

start-decide_example :
    (p : BackendPool ℕ) × (get (codes "tokyo") router.pools ≡ some p)
    × (decide names router alice_profile (codes "example.org") 443
        ≡ decision p (
            direct_target
              (λ ip. any (line_holds parsers ip) (file_lines file4 ++ file_lines file6))
              names
              route
              (codes "example.org")
              443))
start-decide_example =
    start-decide parsers laws connect_channel file4 file6 route users backends auth_store router
      (codes "alice") (codes "secret") alice_profile names (codes "example.org") 443 0 2 started
      accepted
