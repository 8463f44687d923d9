-- ===== src/Tests/Channels.antt =====
-- Channels with Encrypted Client Hello to one backend.
use ech_rust.Base.Text.{Bytes, codes, split}
use ech_rust.Base.{ℕ, ◌≡◌, refl, true, [], ◌∷◌, none, some, ok, err, Holds, arith}
use ech_rust.Config.{BackendConfig, EchConfig, BackendTable, read_backend, read_ech}
use ech_rust.Dns.Wire.{encode}
use ech_rust.Dns.{build_https_query, push_labels, trim_end_matches}
use ech_rust.EchCache.{get_cached_ech_config}
use ech_rust.Base.Utf8.{as_bytes}
use ech_rust.EchConnector.Verified.{IsVerifying, IsKeyed, cached_ssl_connector-IsVerifying}
use ech_rust.EchConnector.{cached_ssl_connector}
use ech_rust.Tests.Messages.{response, parsed}
use ech_rust.Tls.{Uri, Boring, finished, body, Net, World, Attempt, backend_tls_name}
use ech_rust.Transport.Accepted.{IsAccepted}
use ech_rust.Transport.Bootstrap.{bootstrap_ech_config-again}
use ech_rust.Transport.Leaves.{Leaves}
use ech_rust.Transport.Strict.{Falls, connect_channel-IsAccepted, connect_channel-Falls}
use ech_rust.Transport.{fetch_ech_config, bootstrap_ech_config, connect_channel}

abbrev boring : Boring
boring = record {
  has_builder = true;
  sets_default_paths = true;
  native_certs = some ((48 ∷ []) ∷ (49 ∷ []) ∷ []);
  is_x509 = λ c. true;
  adds = λ c. true;
  sets_alpn = true;
  sets_ca_file = λ path. true;
}

abbrev uri : Uri
uri = record {
  scheme = some (codes "https");
  authority = some (codes "example.org");
  host = some (codes "example.org");
  port_u16 = none;
  shown = codes "http://example.org/";
}

abbrev pub net : Net ℕ
net = record {
  parse_uri = λ t. some uri;
  is_endpoint = λ t. true;
  boring = boring;
  post = λ doh query. body (encode response);
  reaches = λ addr. true;
  handshake = λ s.
      finished (record {
        selected_alpn = some (codes "h2");
        ech_accepted = true;
        ech_retry_configs = none;
      });
  over = λ endpoint c. ok 7;
  read_file = λ path. none;
  takes_tls = λ tls. true;
  connect = λ endpoint. ok 8;
}

-- A backend with the defaults of the file.
abbrev table : BackendTable
table = record {
  endpoint = some (codes "https://example.org");
  connect_addr = none;
  auth_token = some (codes "abc");
  ech = some true;
  ech_name = none;
  ech_bootstrap_doh = none;
  pool_size = none;
  max_streams_per_channel = none;
  ech_policy = none;
  tls_domain = none;
  ca_cert = none;
  connect_timeout_ms = none;
}

abbrev pub backend : BackendConfig
backend = record {
  endpoint = codes "https://example.org";
  connect_addr = none;
  auth_token = codes "abc";
  ech = true;
  ech_name = none;
  ech_bootstrap_doh = none;
  pool_size = 2;
  max_streams_per_channel = 128;
  ech_policy = none;
  tls_domain = none;
  ca_cert = none;
  connect_timeout_ms = 8000;
}

backend_read : read_backend table ≡ ok backend
unfolding read_backend
backend_read = refl

naming : Unit {0}
unfolding backend_tls_name get_cached_ech_config
naming = tt

abbrev pub fresh : World
fresh = record { ech_cache = []; ssl_cache = []; log = [] }

cached_ssl_connector-IsVerifying_example :
    Holds
      (λ r. IsVerifying boring none r.0 × IsKeyed boring r.1)
      (cached_ssl_connector boring none [])
cached_ssl_connector-IsVerifying_example = cached_ssl_connector-IsVerifying boring none [] tt

connect_channel-IsAccepted_example :
    Leaves net.boring fresh
      (IsAccepted net backend)
      (connect_channel net backend (read_ech none) 100 101 fresh)
unfolding read_ech
connect_channel-IsAccepted_example =
    connect_channel-IsAccepted net backend (read_ech none) 100 101 fresh tt refl refl

abbrev lenient : EchConfig
lenient = record { bootstrap_doh = codes "https://doh"; policy = codes "Strict" }

connect_channel-Falls_example :
    Falls net backend (connect_channel net backend lenient 100 101 fresh)
unfolding naming
connect_channel-Falls_example =
    connect_channel-Falls net backend lenient 100 101 fresh (codes "example.org") tt refl refl

abbrev pub config : Bytes
config = 0 ∷ 4 ∷ 254 ∷ 13 ∷ 0 ∷ 0 ∷ []

-- What is left after the first bootstrap.
abbrev world_of : Attempt Bytes → World
world_of (ok (found, w)) = w
world_of (err e) = e.world

abbrev stored : World
stored = world_of (bootstrap_ech_config net backend lenient 100 101 fresh)

fetched : bootstrap_ech_config net backend lenient 100 101 fresh ≡ ok (config, stored)
unfolding naming bootstrap_ech_config fetch_ech_config build_https_query as_bytes push_labels split
    trim_end_matches
fetched = rw parsed refl

bootstrap_ech_config-again_example :
    bootstrap_ech_config net backend lenient 130 130 stored ≡ ok (config, stored)
unfolding naming
bootstrap_ech_config-again_example =
    bootstrap_ech_config-again net backend lenient 100 101 fresh stored (codes "example.org") config
      130 130 refl refl fetched (omega arith)
