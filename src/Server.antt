-- ===== src/Server.antt =====
-- server/src/main.rs, `Config::load` of server/src/config.rs, and the handler of server/src/service.rs.
pub mod Calls
use ech_rust.Base.Net.{SocketAddr}
use ech_rust.Base.Text.{Text, Bytes, codes}
use ech_rust.Base.{
  ℕ, Bool, true, false, List, [], Option, none, some, Result, ok, err, ◌>>=◌, ok_or, map_err,
  unwrap_or,
}
use ech_rust.Policy.{Policy, PolicyConfig, from_config}
use ech_rust.Policy
use ech_rust.Service.{Env, Event, Effect, handle_tunnel}
use ech_rust.Tokens.{
  TokenAuth, TokensError, Status, Authorization, Config, new, authenticate, apply_env,
}

pub data StartError : Type 0 where
  config_unread config_unparsed : StartError
  bad_env bad_tokens : TokensError → StartError
  invalid_listen : StartError
  bad_policy : Policy.ConfigError → StartError
  cert_unread key_unread tls_refused : StartError

abbrev pub default_connect_timeout_ms : ℕ
default_connect_timeout_ms = 8000

abbrev pub default_idle_timeout_secs : ℕ
default_idle_timeout_secs = 300

abbrev pub default_max_concurrent_streams : ℕ
default_max_concurrent_streams = 4096

abbrev pub default_listen : Text
default_listen = codes "0.0.0.0:50051"

-- The table `[policy]` of the file, where a key may be missing.
pub record PolicyTable : Type 0 where
  pub connect_timeout_ms : Option ℕ
  pub idle_timeout_secs : Option ℕ
  pub max_concurrent_streams : Option ℕ
  pub deny_private_ip : Option Bool
  pub allowed_ports : Option (List ℕ)

unfoldable pub read_policy : PolicyTable → PolicyConfig
read_policy t = record {
  connect_timeout_ms = unwrap_or t.connect_timeout_ms default_connect_timeout_ms;
  idle_timeout_secs = unwrap_or t.idle_timeout_secs default_idle_timeout_secs;
  max_concurrent_streams = unwrap_or t.max_concurrent_streams default_max_concurrent_streams;
  deny_private_ip = unwrap_or t.deny_private_ip true;
  allowed_ports = unwrap_or t.allowed_ports [];
}

-- A file that TOML accepts.
pub record ConfigTable : Type 0 where
  pub listen : Text
  pub cert : Option Text
  pub key : Option Text
  pub tokens : Option (List Text)
  pub policy : PolicyTable

unfoldable pub read_config : ConfigTable → Config
unfolding read_policy
read_config t = record {
  listen = t.listen;
  cert = t.cert;
  key = t.key;
  tokens = unwrap_or t.tokens [];
  policy = read_policy t.policy;
}

-- `Config::default`
abbrev pub default_config : Config
default_config = record {
  listen = default_listen;
  cert = none;
  key = none;
  tokens = [];
  policy = record {
    connect_timeout_ms = default_connect_timeout_ms;
    idle_timeout_secs = default_idle_timeout_secs;
    max_concurrent_streams = default_max_concurrent_streams;
    deny_private_ip = true;
    allowed_ports = [];
  };
}

pub record TunnelServer : Type 0 where
  pub auth : TokenAuth
  pub policy : Policy
  pub idle_timeout : ℕ

-- What the gRPC server is started with; the certificate and the key where TLS is on.
pub record Started : Type 0 where
  pub listen : SocketAddr
  pub service : TunnelServer
  pub concurrency_limit : ℕ
  pub identity : Option (Bytes × Bytes)

-- The file system, the parser of TOML and that of addresses, and whether tonic takes an identity.
pub record Host : Type 0 where
  pub read_to_string : Text → Option Text
  pub parse_toml : Text → Option ConfigTable
  pub read : Text → Option Bytes
  pub parse_addr : Text → Option SocketAddr
  pub takes_identity : Bytes → Bytes → Bool

module _ (host : Host) where
  abbrev pub load_file : Option Text → Result StartError Config
  load_file none = ok default_config
  load_file (some path) = do
    raw ← ok_or config_unread (host.read_to_string path)
    table ← ok_or config_unparsed (host.parse_toml raw)
    ok (read_config table)

  -- `Config::load`, with the values of `LISTEN` and `TOKENS`.
  unfoldable pub load : Option Text → Option Text → Option Text → Result StartError Config
  load path listen tokens = do
    config ← load_file path
    map_err bad_env (apply_env listen tokens config)

  abbrev pub identity : Option Text → Option Text → Result StartError (Option (Bytes × Bytes))
  identity (some cert_path) (some key_path) = do
    cert ← ok_or cert_unread (host.read cert_path)
    key ← ok_or key_unread (host.read key_path)
    elim (host.takes_identity cert key) [ true ↦ ok (some (cert, key)) | false ↦ err tls_refused ]
  identity _ _ = ok none

  -- `main`, from the configuration on, up to where it serves. `idle_timeout` is in seconds.
  unfoldable pub start_with : Config → Result StartError Started
  start_with config = do
    listen ← ok_or invalid_listen (host.parse_addr config.listen)
    auth ← map_err bad_tokens (new config.tokens)
    policy ← map_err bad_policy (from_config config.policy)
    identity ← identity config.cert config.key
    ok (record {
      listen = listen;
      service = record {
        auth = auth;
        policy = policy;
        idle_timeout = config.policy.idle_timeout_secs;
      };
      concurrency_limit = config.policy.max_concurrent_streams;
      identity = identity;
    })

  unfoldable pub start : Option Text → Option Text → Option Text → Result StartError Started
  start path listen tokens = do config ← load path listen tokens; start_with config

-- The handler of a call: its frames are answered only after its token is accepted.
unfoldable pub tunnel :
    Env → TunnelServer → Authorization → List Event → Result Status (List Effect)
tunnel env server metadata events = do
  principal ← authenticate server.auth metadata
  ok (handle_tunnel env server.policy events)
