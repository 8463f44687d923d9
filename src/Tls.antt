-- ===== src/Tls.antt =====
-- What client/src/ech_tls.rs and client/src/ech_connector.rs share: what is outside the program, what
-- they keep, what they do to the outside, and `backend_tls_name`.
use ech_rust.Base.Maps.{Map}
use ech_rust.Base.Text.{Text, Bytes}
use ech_rust.Base.{
  ℕ, Bool, List, [], ◌∷◌, ◌++◌, Option, none, some, Result, ok, err, ◌>>=◌, ok_or, or_else,
}
use ech_rust.Config.{BackendConfig}
use ech_rust.Dns.{DnsError}
use ech_rust.EchCache.{CachedEchConfig}

-- The messages of `bail!` and `context`.
pub data TransportError : Type 0 where
  invalid_endpoint no_host no_authority no_connector_uri invalid_ech_endpoint : TransportError
  not_https : TransportError
  no_ssl_builder no_default_roots no_native_roots bad_native_root no_usable_roots : TransportError
  no_alpn_setting no_ca_file : TransportError
  connect_failed ssl_config_failed ssl_name_failed ech_list_failed : TransportError
  handshake_failed : Text → TransportError
  no_h2 ech_rejected_retry ech_rejected : TransportError
  query_refused : DnsError → TransportError
  doh_unsent doh_status doh_unread : TransportError
  response_refused : DnsError → TransportError
  strict_bootstrap_failed : TransportError → TransportError
  ech_backend_failed : TransportError → TransportError
  http2_failed : Text → TransportError
  ca_unread tls_config_failed : TransportError
  backend_failed : Text → TransportError

-- `http::Uri`: what its getters return, and its text.
pub record Uri : Type 0 where
  pub scheme : Option Text
  pub authority : Option Text
  pub host : Option Text
  pub port_u16 : Option ℕ
  pub shown : Text

-- `SslConnector`, as it was built.
pub record SslConnector : Type 0 where
  pub verify_peer : Bool
  pub alpn_protos : Bytes
  pub default_verify_paths : Bool
  pub roots : List Bytes
  pub ca_file : Option Text

-- What the handshake is made with.
pub record SslSettings : Type 0 where
  pub connector : SslConnector
  pub verify_hostname : Bool
  pub sni_name : Text
  pub ech_config_list : Bytes

-- What BoringSSL reports of a finished handshake.
pub record Session : Type 0 where
  pub selected_alpn : Option Bytes
  pub ech_accepted : Bool
  pub ech_retry_configs : Option Bytes

pub data Handshake : Type 0 where
  config_refused name_refused list_refused : Handshake
  failed : Text → Handshake
  finished : Session → Handshake

pub record EchConnector : Type 0 where
  pub connect_addr : Text
  pub sni_name : Text
  pub ech_config_list : Bytes
  pub ssl_connector : SslConnector

-- `ClientTlsConfig`: the name to verify, and the certificates of the file where one is given.
pub record ClientTlsConfig : Type 0 where
  pub domain_name : Text
  pub ca_certificate : Option Bytes

-- `Endpoint`, with the times in milliseconds.
pub record Endpoint : Type 0 where
  pub uri : Text
  pub connect_timeout : ℕ
  pub http2_keep_alive_interval : ℕ
  pub keep_alive_timeout : ℕ
  pub keep_alive_while_idle : Bool
  pub tls : Option ClientTlsConfig

-- The answer of the resolver to a POST.
pub data DohAnswer : Type 0 where
  unsent error_status unread : DohAnswer
  body : Bytes → DohAnswer

-- The calls of BoringSSL and of the native certificate store that can fail while a connector is
-- built: `is_x509` for `X509::from_der`, `adds` for `add_cert`.
pub record Boring : Type 0 where
  pub has_builder : Bool
  pub sets_default_paths : Bool
  pub native_certs : Option (List Bytes)
  pub is_x509 : Bytes → Bool
  pub adds : Bytes → Bool
  pub sets_alpn : Bool
  pub sets_ca_file : Text → Bool

-- What is outside. `C` is the type of the channels; `over` is the HTTP/2 connection of tonic over
-- the stream of a connector with the timeouts of an endpoint, `connect` its own connection.
pub record Net (C : Type 0) : Type 0 where
  pub parse_uri : Text → Option Uri
  pub is_endpoint : Text → Bool
  pub boring : Boring
  pub post : Text → Bytes → DohAnswer
  pub reaches : Text → Bool
  pub handshake : SslSettings → Handshake
  pub over : Endpoint → EchConnector → Result Text C
  pub read_file : Text → Option Bytes
  pub takes_tls : ClientTlsConfig → Bool
  pub connect : Endpoint → Result Text C

-- What is asked of the network and of BoringSSL.
pub data Action : Type 0 where
  posted : Text → Bytes → Action
  dialled : Text → Action
  offered : SslSettings → Action
  connected_plain : Endpoint → Action

-- The connectors that were built, by the file of their certificates.
abbrev pub SslCache : Type 0
SslCache = List (Option Text × SslConnector)

-- The two caches of the process, and what was done so far.
pub record World : Type 0 where
  pub ech_cache : Map CachedEchConfig
  pub ssl_cache : SslCache
  pub log : List Action

pub record Failure : Type 0 where
  pub reason : TransportError
  pub world : World

abbrev pub Attempt : Type 0 → Type 0
Attempt A = Result Failure (A × World)

abbrev pub bail : {A : Type 0} → TransportError → World → Attempt A
bail e w = err (record { reason = e; world = w })

-- A result of code that does not touch the world.
abbrev pub lift : {A : Type 0} → World → Result TransportError A → Attempt A
lift w (ok a) = ok (a, w)
lift w (err e) = bail e w

abbrev pub act : Action → World → World
act a w = record w { log = w.log ++ (a ∷ []) }

abbrev pub endpoint_host : {C : Type 0} → Net C → BackendConfig → Result TransportError Text
endpoint_host n backend = do
  uri ← ok_or invalid_endpoint (n.parse_uri backend.endpoint)
  ok_or no_host uri.host

abbrev pub named_or :
    {C : Type 0} → Net C → BackendConfig → Option Text → Result TransportError Text
named_or n backend (some name) = ok name
named_or n backend none = endpoint_host n backend

unfoldable pub backend_tls_name : {C : Type 0} → Net C → BackendConfig → Result TransportError Text
backend_tls_name n backend = named_or n backend (or_else backend.tls_domain backend.ech_name)
