-- ===== src/Transport.antt =====
-- client/src/ech_tls.rs: the choice of a transport for a channel, and the ECH bootstrap.
pub mod Leaves
pub mod Accepted
pub mod Strict
pub mod Keyed
pub mod Bootstrap
use ech_rust.Base.Text.{Text, Bytes, codes, same, starts_with}
use ech_rust.Base.Utf8.{as_bytes}
use ech_rust.Base.{
  map_err, ℕ, zero, suc, ◌+◌, Bool, true, false, not, List, [], ◌∷◌, ◌++◌, Option, none, some,
  Result, ok, err, ◌>>=◌, ◌>>◌, guard, ok_or, if◌then◌else◌,
}
use ech_rust.Config.{BackendConfig, EchConfig, effective_ech_bootstrap_doh, effective_ech_policy}
use ech_rust.Dns.{build_https_query, parse_https_response_for_ech}
use ech_rust.EchCache.{get_cached_ech_config, put_cached_ech_config}
use ech_rust.EchConnector.{new, connect}
use ech_rust.Tls.{
  TransportError, invalid_endpoint, no_authority, no_connector_uri, invalid_ech_endpoint,
  query_refused, doh_unsent, doh_status, doh_unread, response_refused, strict_bootstrap_failed,
  ech_backend_failed, http2_failed, ca_unread, tls_config_failed, backend_failed, ClientTlsConfig,
  EchConnector, Endpoint, DohAnswer, unsent, error_status, unread, body, Net, posted,
  connected_plain, World, Failure, Attempt, bail, lift, act, backend_tls_name,
}

-- `with_context` on an attempt.
abbrev pub in_context : {A : Type 0} → (TransportError → TransportError) → Attempt A → Attempt A
in_context f (ok r) = ok r
in_context f (err e) = bail (f e.reason) e.world

abbrev pub response_body : DohAnswer → Result TransportError Bytes
response_body unsent = err doh_unsent
response_body error_status = err doh_status
response_body unread = err doh_unread
response_body (body bytes) = ok bytes

-- The settings that both kinds of channel have.
abbrev pub endpoint_of : Text → BackendConfig → Endpoint
endpoint_of uri backend = record {
  uri = uri;
  connect_timeout = backend.connect_timeout_ms;
  http2_keep_alive_interval = 30000;
  keep_alive_timeout = 10000;
  keep_alive_while_idle = true;
  tls = none;
}

module _ {C : Type 0} (n : Net C) where
  -- The query of the resolver, and what is stored of its answer; `now` is the time then.
  unfoldable pub fetch_ech_config : Text → Text → Text → ℕ → World → Attempt Bytes
  fetch_ech_config doh name cache_key now w = do
    (query, _) ← lift w (map_err query_refused (build_https_query (as_bytes name)))
    let w1 = act (posted doh query) w
    (response, _) ← lift w1 (response_body (n.post doh query))
    ((ech_config, ttl), _) ←
        lift w1 (map_err response_refused (parse_https_response_for_ech response))
    ok (
      ech_config,
      record w1 { ech_cache = put_cached_ech_config cache_key ech_config ttl now w1.ech_cache },
    )

  abbrev pub cached_or_fetch : Text → Text → Text → ℕ → World → Option Bytes → Attempt Bytes
  cached_or_fetch doh name cache_key later w (some config) = ok (config, w)
  cached_or_fetch doh name cache_key later w none = fetch_ech_config doh name cache_key later w

  abbrev pub cache_key : Text → Text → Text
  cache_key doh name = (doh ++ (0 ∷ [])) ++ name

  -- The cache is read at `now` and written at `later`.
  unfoldable pub bootstrap_ech_config : BackendConfig → EchConfig → ℕ → ℕ → World → Attempt Bytes
  bootstrap_ech_config backend ech now later w = do
    (name, _) ← lift w (backend_tls_name n backend)
    let doh = effective_ech_bootstrap_doh backend ech
    let key = cache_key doh name
    let (found, ech_cache) = get_cached_ech_config key now w.ech_cache
    cached_or_fetch doh name key later (record w { ech_cache = ech_cache }) found

  -- `connect_with_connector`: the connector's `connect`, and HTTP/2 over its stream.
  abbrev pub connect_with_connector : Endpoint → EchConnector → World → Attempt C
  connect_with_connector endpoint connector w = do
    (session, w1) ← connect n connector w
    lift w1 (map_err http2_failed (n.over endpoint connector))

  unfoldable pub connect_ech_channel : BackendConfig → Bytes → World → Attempt C
  connect_ech_channel backend ech_config w = do
    (uri, _) ← lift w (ok_or invalid_endpoint (n.parse_uri backend.endpoint))
    (authority, _) ← lift w (ok_or no_authority uri.authority)
    (connector_uri, _) ←
        lift w (ok_or no_connector_uri (n.parse_uri (codes "http://" ++ authority)))
    (_, _) ← lift w (guard (n.is_endpoint connector_uri.shown) invalid_ech_endpoint)
    (connector, w1) ← new n backend ech_config w
    in_context ech_backend_failed
        (connect_with_connector (endpoint_of connector_uri.shown backend) connector w1)

  -- `if let Some(path) = &backend.ca_cert`
  abbrev pub read_ca : Option Text → Result TransportError (Option Bytes)
  read_ca none = ok none
  read_ca (some path) = do pem ← ok_or ca_unread (n.read_file path); ok (some pem)

  abbrev pub with_tls : BackendConfig → Endpoint → Result TransportError Endpoint
  with_tls backend endpoint =
      if starts_with (codes "https://") backend.endpoint
      then (do
        domain_name ← backend_tls_name n backend
        ca_certificate ← read_ca backend.ca_cert
        let tls : ClientTlsConfig = record {
          domain_name = domain_name;
          ca_certificate = ca_certificate;
        }
        guard (n.takes_tls tls) tls_config_failed
        ok (record endpoint { tls = some tls }))
      else ok endpoint

  -- The second half of `connect_channel`: ordinary TLS, or none where the endpoint is not `https://`.
  unfoldable pub connect_plain : BackendConfig → World → Attempt C
  connect_plain backend w = do
    (_, _) ← lift w (guard (n.is_endpoint backend.endpoint) invalid_endpoint)
    (endpoint, _) ← lift w (with_tls backend (endpoint_of backend.endpoint backend))
    lift (act (connected_plain endpoint) w) (map_err backend_failed (n.connect endpoint))

  abbrev pub or_plain : BackendConfig → Attempt C → Attempt C
  or_plain backend (ok r) = ok r
  or_plain backend (err e) = connect_plain backend e.world

  -- The four arms on the policy and what the bootstrap gave.
  abbrev pub by_policy : BackendConfig → Bool → Attempt Bytes → Attempt C
  by_policy backend true (ok (config, w)) = connect_ech_channel backend config w
  by_policy backend true (err e) = bail (strict_bootstrap_failed e.reason) e.world
  by_policy backend false (ok (config, w)) = or_plain backend (connect_ech_channel backend config w)
  by_policy backend false (err e) = connect_plain backend e.world

  abbrev pub is_strict : BackendConfig → EchConfig → Bool
  is_strict backend ech = same (effective_ech_policy backend ech) (codes "strict")

  abbrev pub with_ech : BackendConfig → Bool → Attempt Bytes → World → Attempt C
  with_ech backend strict ech_config w = do
    (ech_name, _) ← lift w (backend_tls_name n backend)
    by_policy backend strict ech_config

  unfoldable pub connect_channel : BackendConfig → EchConfig → ℕ → ℕ → World → Attempt C
  connect_channel backend ech now later w =
      if backend.ech
      then with_ech backend (is_strict backend ech) (bootstrap_ech_config backend ech now later w) w
      else connect_plain backend w
