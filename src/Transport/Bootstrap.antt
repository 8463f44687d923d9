-- ===== src/Transport/Bootstrap.antt =====
-- When the resolver is asked for an ECH configuration again.
use ech_rust.Base.Maps.{Map, insert}
use ech_rust.Base.Text.{Text, Bytes, same_refl}
use ech_rust.Base.Utf8.{as_bytes}
use ech_rust.Base.{
  map_err, ℕ, ◌+◌, ◌<◌, ltb, ◌≡◌, refl, sym, ap, ◌∙◌, true, none, some, Result, ok, err, arith,
  Holds, Holds->>=, Holds-ok,
}
use ech_rust.Config.{BackendConfig, EchConfig, effective_ech_bootstrap_doh}
use ech_rust.Dns.{build_https_query, parse_https_response_for_ech}
use ech_rust.EchCache.{CachedEchConfig, clamp_ttl, get_cached_ech_config, put_cached_ech_config}
use ech_rust.Tls.{
  TransportError, query_refused, response_refused, Net, posted, World, lift, act, backend_tls_name,
}
use ech_rust.Transport.{
  response_body, fetch_ech_config, cached_or_fetch, cache_key, bootstrap_ech_config,
}

-- What was stored is found for half a minute, and the lookup leaves the cache alone.
put-get :
    (key : Text) (config : Bytes) (ttl now t : ℕ) (cache : Map CachedEchConfig)
    → t < now + 30
    → let stored = put_cached_ech_config key config ttl now cache in
      get_cached_ech_config key t stored ≡ (some config, stored)
unfolding put_cached_ech_config get_cached_ech_config insert
put-get key config ttl now t cache h =
    let lives : ltb t (now + clamp_ttl ttl) ≡ true = ground arith in rw (same_refl key, lives) refl

lift-Holds :
    {A : Type 0} (w : World) (r : Result TransportError A) → Holds (λ a. a.1 ≡ w) (lift w r)
lift-Holds w (ok a) = refl
lift-Holds w (err e) = tt

module _ {C : Type 0} (n : Net C) where
  abbrev KeptFor : Text → ℕ → Bytes × World → Type 0
  KeptFor key later r =
      (t : ℕ)
      → t < later + 30
      → get_cached_ech_config key t r.1.ech_cache ≡ (some r.0, r.1.ech_cache)

  fetch_ech_config-KeptFor :
      (doh name key : Text) (later : ℕ) (w : World)
      → Holds (KeptFor key later) (fetch_ech_config n doh name key later w)
  unfolding fetch_ech_config
  fetch_ech_config-KeptFor doh name key later w =
      Holds->>= _ _ (lift w (map_err query_refused (build_https_query (as_bytes name)))) _
        (lift-Holds w _)
        (λ q hq.
          let w1 = act (posted doh q.0) w in
          Holds->>= _ _ (lift w1 (response_body (n.post doh q.0))) _ (lift-Holds w1 _) (λ r hr.
            Holds->>= _ _ (lift w1 (map_err response_refused (parse_https_response_for_ech r.0))) _
              (lift-Holds w1 _) (λ c hc t h. put-get key c.0.0 c.0.1 later t w.ech_cache h)))

  cached-bootstrap :
      (backend : BackendConfig) (ech : EchConfig) (now later : ℕ) (w : World) (name : Text)
      → backend_tls_name n backend ≡ ok name
      → let key = cache_key n (effective_ech_bootstrap_doh backend ech) name in
        let looked = get_cached_ech_config key now w.ech_cache in
        bootstrap_ech_config n backend ech now later w
        ≡ cached_or_fetch n
            (effective_ech_bootstrap_doh backend ech)
            name
            key
            later
            (record w { ech_cache = looked.1 })
            looked.0
  unfolding bootstrap_ech_config
  cached-bootstrap backend ech now later w name named = rw named refl

  -- A configuration that the resolver gave is used again for at least half a minute after it was
  -- stored: a bootstrap at such a time gives it, asks nobody, and leaves the caches as they are.
  pub bootstrap_ech_config-again :
      (backend : BackendConfig) (ech : EchConfig) (now later : ℕ) (w w1 : World) (name : Text)
      (config : Bytes) (t t' : ℕ)
      → backend_tls_name n backend ≡ ok name
      → (get_cached_ech_config
          (cache_key n (effective_ech_bootstrap_doh backend ech) name)
          now
          w.ech_cache).0
        ≡ none
      → bootstrap_ech_config n backend ech now later w ≡ ok (config, w1)
      → t < later + 30
      → bootstrap_ech_config n backend ech t t' w1 ≡ ok (config, w1)
  bootstrap_ech_config-again backend ech now later w w1 name config t t' named absent got h =
      cached-bootstrap backend ech t t' w1 name named
      ∙ ap (λ l. cached_or_fetch n doh name key t' (record w1 { ech_cache = l.1 }) l.0)
          (Holds-ok (KeptFor key later) _ (config, w1)
            (fetch_ech_config-KeptFor doh name key later _) (sym fetched ∙ got) t h)
    where
      doh : Text
      doh = effective_ech_bootstrap_doh backend ech

      key : Text
      key = cache_key n doh name

      fetched :
          bootstrap_ech_config n backend ech now later w
          ≡ fetch_ech_config n doh name key later
              (record w { ech_cache = (get_cached_ech_config key now w.ech_cache).1 })
      fetched =
          cached-bootstrap backend ech now later w name named
          ∙ ap
              (λ o.
                cached_or_fetch n doh name key later
                  (record w { ech_cache = (get_cached_ech_config key now w.ech_cache).1 }) o)
              absent
