-- ===== src/Transport/Accepted.antt =====
-- What a channel over Encrypted Client Hello stands on.
use ech_rust.Base.Text.{Text, Bytes, codes, is_some}
use ech_rust.Base.Utf8.{as_bytes}
use ech_rust.Base.{
  map_err, ℕ, ◌≡◌, refl, inl, inr, Bool, true, false, not, ◌++◌, Option, none, some, Result, ok,
  err, guard, ok_or, Bool-cases, if◌then◌else◌, Holds-ok,
}
use ech_rust.Config.{BackendConfig, EchConfig, effective_ech_bootstrap_doh}
use ech_rust.Dns.{build_https_query, parse_https_response_for_ech}
use ech_rust.EchCache.{get_cached_ech_config}
use ech_rust.EchConnector.Verified.{IsVerifying, cached_ssl_connector-IsVerifying}
use ech_rust.EchConnector.{
  is_h2, is_https, cached_ssl_connector, settings, new, connect, check_session, after_handshake,
}
use ech_rust.Tls.{
  invalid_endpoint, no_host, not_https, no_authority, no_connector_uri, invalid_ech_endpoint,
  ech_backend_failed, http2_failed, ech_rejected, ech_rejected_retry, query_refused,
  response_refused, Session, Handshake, config_refused, name_refused, list_refused, failed,
  finished, EchConnector, Endpoint, Net, posted, dialled, offered, World, bail, lift, act,
  backend_tls_name,
}
use ech_rust.Transport.{
  response_body, endpoint_of, fetch_ech_config, cached_or_fetch, cache_key, bootstrap_ech_config,
  connect_ech_channel,
}
use ech_rust.Transport.Leaves.{Kept, Kept-act, Leaves, Leaves->>=, Leaves-lift, Leaves-in_context}

module _ {C : Type 0} (n : Net C) where
  -- A handshake that offered HTTP/2 and was accepted with ECH, for the name of the backend and by a
  -- connector that verifies its peer.
  pub record IsAccepted (backend : BackendConfig) (c : C) : Type 0 where
    pub connector : EchConnector
    pub endpoint : Endpoint
    pub session : Session
    pub named : backend_tls_name n backend ≡ ok connector.sni_name
    pub verifying : IsVerifying n.boring backend.ca_cert connector.ssl_connector
    pub shook : n.handshake (settings n connector) ≡ finished session
    pub speaks_h2 : is_h2 n session.selected_alpn ≡ true
    pub hidden : session.ech_accepted ≡ true
    pub channel : n.over endpoint connector ≡ ok c

  record IsMade (backend : BackendConfig) (c : EchConnector) : Type 0 where
    named : backend_tls_name n backend ≡ ok c.sni_name
    verifying : IsVerifying n.boring backend.ca_cert c.ssl_connector

  new-IsMade :
      (backend : BackendConfig) (config : Bytes) (w : World)
      → Kept n.boring w w
      → Leaves n.boring w (IsMade backend) (new n backend config w)
  unfolding new
  new-IsMade backend config w k =
      Leaves->>= n.boring _ _ w _ _
        (Leaves-lift n.boring w w (ok_or invalid_endpoint (n.parse_uri backend.endpoint)) k)
        (λ uri w1 k1 h1.
          Leaves->>= n.boring _ _ w _ _
            (Leaves-lift n.boring w w (guard (is_https uri.scheme) not_https) k)
            (λ u w2 k2 h2.
              Leaves->>= n.boring _ _ w _ _ (Leaves-lift n.boring w w (ok_or no_host uri.host) k)
                (λ host w3 k3 h3.
                  Leaves->>= n.boring _ _ w _ _
                    (Leaves-lift n.boring w w (backend_tls_name n backend) k)
                    (λ sni w4 k4 named.
                      Leaves->>= n.boring _ _ w _ _
                        (Leaves-lift n.boring w w
                          (cached_ssl_connector n.boring backend.ca_cert w.ssl_cache) k)
                        (λ r w5 k5 given.
                          let made =
                            Holds-ok _ _ r
                              (cached_ssl_connector-IsVerifying n.boring backend.ca_cert w.ssl_cache
                                k.keyed)
                              given in
                          (
                            record { no_plain = refl; keyed = made.1 },
                            record { named = named; verifying = made.0 },
                          ))))))

  Shook : EchConnector → Session → Type 0
  Shook c s =
      (n.handshake (settings n c) ≡ finished s)
      × (is_h2 n s.selected_alpn ≡ true)
      × (s.ech_accepted ≡ true)

  check_session-Shook :
      (c : EchConnector) (s : Session) (w w1 : World)
      → n.handshake (settings n c) ≡ finished s
      → Kept n.boring w w1
      → Leaves n.boring w (Shook c) (check_session n s w1)
  unfolding Shook
  check_session-Shook c s w w1 e k = elim (Bool-cases (is_h2 n s.selected_alpn)) [
    | inr other ↦ rw other k
    | inl speaks ↦ rw speaks (go s.ech_accepted refl speaks)
  ]
    where
      go :
          (taken : Bool)
          → s.ech_accepted ≡ taken
          → is_h2 n s.selected_alpn ≡ true
          → Leaves n.boring w (Shook c) (
              if not taken
              then bail
                  (if is_some s.ech_retry_configs then ech_rejected_retry else ech_rejected)
                  w1
              else ok (s, w1))
      go true taken speaks = (k, (e, speaks, taken))
      go false refused speaks = k

  connect-Shook :
      (c : EchConnector) (w w1 : World)
      → Kept n.boring w w1
      → Leaves n.boring w (Shook c) (connect n c w1)
  unfolding connect
  connect-Shook c w w1 k = elim (Bool-cases (n.reaches c.connect_addr)) [
    | inr unreached ↦ rw unreached dial
    | inl reached ↦ rw reached (go (n.handshake (settings n c)) refl)
  ]
    where
      dial : Kept n.boring w (act (dialled c.connect_addr) w1)
      dial = Kept-act (dialled c.connect_addr) refl k

      told : Kept n.boring w (act (offered (settings n c)) (act (dialled c.connect_addr) w1))
      told = Kept-act (offered (settings n c)) refl dial

      go :
          (h : Handshake)
          → n.handshake (settings n c) ≡ h
          → Leaves n.boring w
              (Shook c)
              (after_handshake n h (act (offered (settings n c)) (act (dialled c.connect_addr) w1)))
      go config_refused e = told
      go name_refused e = told
      go list_refused e = told
      go (failed x) e = told
      go (finished s) e = check_session-Shook c s w _ e told

  pub connect_ech_channel-IsAccepted :
      (backend : BackendConfig) (config : Bytes) (w : World)
      → Kept n.boring w w
      → Leaves n.boring w (IsAccepted backend) (connect_ech_channel n backend config w)
  unfolding connect_ech_channel Shook
  connect_ech_channel-IsAccepted backend config w k =
      Leaves->>= n.boring _ _ w _ _
        (Leaves-lift n.boring w w (ok_or invalid_endpoint (n.parse_uri backend.endpoint)) k)
        (λ uri w1 k1 h1.
          Leaves->>= n.boring _ _ w _ _
            (Leaves-lift n.boring w w (ok_or no_authority uri.authority) k)
            (λ authority w2 k2 h2.
              Leaves->>= n.boring _ _ w _ _
                (Leaves-lift n.boring w w
                  (ok_or no_connector_uri (n.parse_uri (codes "http://" ++ authority))) k)
                (λ inner w3 k3 h3.
                  Leaves->>= n.boring _ _ w _ _
                    (Leaves-lift n.boring w w
                      (guard (n.is_endpoint inner.shown) invalid_ech_endpoint) k)
                    (λ u w4 k4 h4.
                      Leaves->>= n.boring _ _ w _ _ (new-IsMade backend config w k) (λ c w5 k5 made.
                        Leaves-in_context n.boring _ ech_backend_failed w _ (
                          Leaves->>= n.boring _ _ w _ _ (connect-Shook c w w5 k5) (λ s w6 k6 shook.
                            Leaves-map s c (endpoint_of inner.shown backend) w6 k6 made shook)))))))
    where
      Leaves-map :
          (s : Session) (c : EchConnector) (endpoint : Endpoint) (w6 : World)
          → Kept n.boring w w6
          → IsMade backend c
          → Shook c s
          → Leaves n.boring w
              (IsAccepted backend)
              (lift w6 (map_err http2_failed (n.over endpoint c)))
      Leaves-map s c endpoint w6 k6 made shook = go (n.over endpoint c) refl
        where
          go :
              (r : Result Text C)
              → n.over endpoint c ≡ r
              → Leaves n.boring w (IsAccepted backend) (lift w6 (map_err http2_failed r))
          go (err x) e = k6
          go (ok channel) e = (
            k6,
            record {
              connector = c;
              endpoint = endpoint;
              session = s;
              named = made.named;
              verifying = made.verifying;
              shook = shook.0;
              speaks_h2 = shook.1;
              hidden = shook.2;
              channel = e;
            },
          )

  pub bootstrap_ech_config-Leaves :
      (backend : BackendConfig) (ech : EchConfig) (now later : ℕ) (w : World)
      → Kept n.boring w w
      → Leaves n.boring w (λ config. Unit {0}) (bootstrap_ech_config n backend ech now later w)
  unfolding bootstrap_ech_config fetch_ech_config
  bootstrap_ech_config-Leaves backend ech now later w k =
      Leaves->>= n.boring _ _ w _ _ (Leaves-lift n.boring w w (backend_tls_name n backend) k)
        (λ name w1 k1 h1.
          let doh = effective_ech_bootstrap_doh backend ech in
          let looked = get_cached_ech_config (cache_key n doh name) now w.ech_cache in
          go doh name (record w { ech_cache = looked.1 }) looked.0
            (record { no_plain = refl; keyed = k.keyed }))
    where
      go :
          (doh name : Text) (w1 : World) (found : Option Bytes)
          → Kept n.boring w w1
          → Leaves n.boring w
              (λ config. Unit {0})
              (cached_or_fetch n doh name (cache_key n doh name) later w1 found)
      go doh name w1 (some config) k1 = (k1, tt)
      go doh name w1 none k1 =
          Leaves->>= n.boring _ _ w _ _
            (Leaves-lift n.boring w w1 (map_err query_refused (build_https_query (as_bytes name)))
              k1)
            (λ query w2 k2 h2.
              let asked = Kept-act (posted doh query) refl k1 in
              Leaves->>= n.boring _ _ w _ _
                (Leaves-lift n.boring w _ (response_body (n.post doh query)) asked)
                (λ response w3 k3 h3.
                  Leaves->>= n.boring _ _ w _ _
                    (Leaves-lift n.boring w _
                      (map_err response_refused (parse_https_response_for_ech response)) asked)
                    (λ r w4 k4 h4.
                      (record { no_plain = asked.no_plain; keyed = asked.keyed }, tt))))
