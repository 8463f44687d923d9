-- ===== src/EchConnector.antt =====
-- client/src/ech_connector.rs: the TLS connection with Encrypted Client Hello.
pub mod Verified
use ech_rust.Base.Text.{Text, Bytes, codes, same, is_some, decimal}
use ech_rust.Base.{
  unwrap_or, ℕ, zero, suc, ◌+◌, Bool, true, false, not, List, [], ◌∷◌, ◌++◌, Option, none, some,
  Result, ok, err, ◌>>=◌, ◌>>◌, guard, ok_or, ◌==◌, if◌then◌else◌,
}
use ech_rust.Config.{BackendConfig}
use ech_rust.Tls.{
  TransportError, invalid_endpoint, no_host, not_https, no_ssl_builder, no_default_roots,
  no_native_roots, bad_native_root, no_usable_roots, no_alpn_setting, no_ca_file, connect_failed,
  ssl_config_failed, ssl_name_failed, ech_list_failed, handshake_failed, no_h2, ech_rejected_retry,
  ech_rejected, SslConnector, SslSettings, Session, Handshake, config_refused, name_refused,
  list_refused, failed, finished, EchConnector, Boring, Net, dialled, offered, SslCache, World,
  Attempt, bail, lift, act, backend_tls_name,
}

-- The loop of `load_native_roots`: the certificates that the store took, and their number.
unfoldable pub add_roots :
    Boring → List Bytes → List Bytes → ℕ → Result TransportError (List Bytes × ℕ)
add_roots b [] roots loaded = ok (roots, loaded)
add_roots b (cert ∷ certs) roots loaded =
    if not (b.is_x509 cert)
    then err bad_native_root
    else if b.adds cert
    then add_roots b certs (roots ++ (cert ∷ [])) (loaded + 1)
    else add_roots b certs roots loaded

unfoldable pub load_native_roots : Boring → Result TransportError (List Bytes)
load_native_roots b = do
  certs ← ok_or no_native_roots b.native_certs
  (roots, loaded) ← add_roots b certs [] 0
  guard (not (loaded == 0)) no_usable_roots
  ok roots

-- `if let Some(path) = ca_cert { builder.set_ca_file(path)? }`
abbrev pub check_ca_file : Boring → Option Text → Result TransportError (Unit {0})
check_ca_file b none = ok tt
check_ca_file b (some path) = guard (b.sets_ca_file path) no_ca_file

-- The value for `set_alpn_protos` and the protocol in it.
abbrev pub h2 : Bytes
h2 = codes "h2"

unfoldable pub build_ssl_connector : Boring → Option Text → Result TransportError SslConnector
build_ssl_connector b ca_cert = do
  guard b.has_builder no_ssl_builder
  guard b.sets_default_paths no_default_roots
  roots ← load_native_roots b
  guard b.sets_alpn no_alpn_setting
  check_ca_file b ca_cert
  ok (record {
    verify_peer = true;
    alpn_protos = 2 ∷ h2;
    default_verify_paths = true;
    roots = roots;
    ca_file = ca_cert;
  })

abbrev pub same_path : Option Text → Option Text → Bool
same_path none none = true
same_path (some a) (some b) = same a b
same_path _ _ = false

abbrev pub cached : Option Text → SslCache → Option SslConnector
cached ca_cert [] = none
cached ca_cert ((path, connector) ∷ rest) =
    if same_path path ca_cert then some connector else cached ca_cert rest

-- `entry(ca_cert).or_insert_with(...)`
abbrev pub entry_or_insert :
    Option Text → SslConnector → SslCache → Option SslConnector → SslConnector × SslCache
entry_or_insert ca_cert connector cache (some present) = (present, cache)
entry_or_insert ca_cert connector cache none = (connector, (ca_cert, connector) ∷ cache)

abbrev pub use_cached :
    Boring
    → Option Text
    → SslCache
    → Option SslConnector
    → Result TransportError (SslConnector × SslCache)
use_cached b ca_cert cache (some connector) = ok (connector, cache)
use_cached b ca_cert cache none = do
  connector ← build_ssl_connector b ca_cert
  ok (entry_or_insert ca_cert connector cache (cached ca_cert cache))

unfoldable pub cached_ssl_connector :
    Boring → Option Text → SslCache → Result TransportError (SslConnector × SslCache)
cached_ssl_connector b ca_cert cache = use_cached b ca_cert cache (cached ca_cert cache)

-- `uri.scheme_str() != Some("https")`
abbrev pub is_https : Option Text → Bool
is_https none = false
is_https (some scheme) = same scheme (codes "https")

module _ {C : Type 0} (n : Net C) where
  -- `EchConnector::new`
  unfoldable pub new : BackendConfig → Bytes → World → Attempt EchConnector
  new backend ech_config_list w = do
    (uri, _) ← lift w (ok_or invalid_endpoint (n.parse_uri backend.endpoint))
    (_, _) ← lift w (guard (is_https uri.scheme) not_https)
    (endpoint_host, _) ← lift w (ok_or no_host uri.host)
    let port = unwrap_or uri.port_u16 443
    (sni_name, _) ← lift w (backend_tls_name n backend)
    let connect_addr = unwrap_or backend.connect_addr ((endpoint_host ++ codes ":") ++ decimal port)
    ((ssl_connector, ssl_cache), _) ←
        lift w (cached_ssl_connector n.boring backend.ca_cert w.ssl_cache)
    ok (
      record {
        connect_addr = connect_addr;
        sni_name = sni_name;
        ech_config_list = ech_config_list;
        ssl_connector = ssl_connector;
      },
      record w { ssl_cache = ssl_cache },
    )

  -- `selected_alpn_protocol() != Some(b"h2")`
  abbrev pub is_h2 : Option Bytes → Bool
  is_h2 none = false
  is_h2 (some protocol) = same protocol h2

  -- The checks behind the handshake.
  abbrev pub check_session : Session → World → Attempt Session
  check_session s w =
      if not (is_h2 s.selected_alpn)
      then bail no_h2 w
      else if not s.ech_accepted
      then bail (if is_some s.ech_retry_configs then ech_rejected_retry else ech_rejected) w
      else ok (s, w)

  abbrev pub after_handshake : Handshake → World → Attempt Session
  after_handshake config_refused w = bail ssl_config_failed w
  after_handshake name_refused w = bail ssl_name_failed w
  after_handshake list_refused w = bail ech_list_failed w
  after_handshake (failed e) w = bail (handshake_failed e) w
  after_handshake (finished s) w = check_session s w

  abbrev pub settings : EchConnector → SslSettings
  settings c = record {
    connector = c.ssl_connector;
    verify_hostname = true;
    sni_name = c.sni_name;
    ech_config_list = c.ech_config_list;
  }

  -- `EchConnector::connect`
  unfoldable pub connect : EchConnector → World → Attempt Session
  connect c w =
      let dial = act (dialled c.connect_addr) w in
      if not (n.reaches c.connect_addr)
      then bail connect_failed dial
      else after_handshake (n.handshake (settings c)) (act (offered (settings c)) dial)
