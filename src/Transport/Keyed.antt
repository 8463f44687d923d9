-- ===== src/Transport/Keyed.antt =====
-- What the attempt for one channel leaves to the next: the connectors that are cached.
use ech_rust.Base.Text.{Bytes, codes}
use ech_rust.Base.{
  ℕ, ◌≡◌, refl, Bool, true, false, Result, ok, err, guard, map_err, Holds, Holds->>=, if◌then◌else◌,
}
use ech_rust.Config.{BackendConfig, EchConfig, effective_ech_policy}
use ech_rust.EchConnector.Verified.{IsKeyed}
use ech_rust.Tls.{
  TransportError, invalid_endpoint, backend_failed, Net, World, Attempt, backend_tls_name, lift,
  act, connected_plain,
}
use ech_rust.Transport.{
  bootstrap_ech_config, connect_plain, or_plain, by_policy, is_strict, with_ech, with_tls,
  endpoint_of, connect_channel, connect_ech_channel,
}
use ech_rust.Transport.Leaves.{Leaves}
use ech_rust.Transport.Strict.{connect_channel-IsAccepted}
use ech_rust.Transport.Accepted.{
  IsAccepted, connect_ech_channel-IsAccepted, bootstrap_ech_config-Leaves,
}

module _ {C : Type 0} (n : Net C) where
  -- A result that leaves the connectors those for their files.
  abbrev pub Keys : {A : Type 0} → Attempt A → Type 0
  Keys r = Holds (λ made. IsKeyed n.boring made.1.ssl_cache) r

  lift-Keys :
      {A : Type 0} (w : World) (r : Result TransportError A)
      → IsKeyed n.boring w.ssl_cache
      → Keys (lift w r)
  lift-Keys w (ok a) h = h
  lift-Keys w (err e) h = tt

  Leaves-Keys :
      {A : Type 0} (P : A → Type 0) (w : World) (r : Attempt A) → Leaves n.boring w P r → Keys r
  Leaves-Keys P w (ok (a, w1)) h = h.0.keyed
  Leaves-Keys P w (err e) h = tt

  connect_plain-Keys :
      (backend : BackendConfig) (w : World)
      → IsKeyed n.boring w.ssl_cache
      → Keys (connect_plain n backend w)
  unfolding connect_plain
  connect_plain-Keys backend w keyed =
      Holds->>= _ _ (lift w (guard (n.is_endpoint backend.endpoint) invalid_endpoint)) _
        (lift-Keys w (guard (n.is_endpoint backend.endpoint) invalid_endpoint) keyed)
        (λ u kept.
          Holds->>= _ _ (lift w (with_tls n backend (endpoint_of backend.endpoint backend))) _
            (lift-Keys w (with_tls n backend (endpoint_of backend.endpoint backend)) keyed)
            (λ made same_world.
              lift-Keys (act (connected_plain made.0) w) (map_err backend_failed (n.connect made.0))
                keyed))

  or_plain-Keys :
      (backend : BackendConfig) (w : World) (r : Attempt C)
      → Leaves n.boring w (IsAccepted n backend) r
      → Keys (or_plain n backend r)
  or_plain-Keys backend w (ok (c, w1)) h = h.0.keyed
  or_plain-Keys backend w (err e) h = connect_plain-Keys backend e.world h.keyed

  by_policy-Keys :
      (backend : BackendConfig) (strict : Bool) (w : World) (r : Attempt Bytes)
      → Leaves n.boring w (λ config. Unit {0}) r
      → Keys (by_policy n backend strict r)
  by_policy-Keys backend true w (err e) h = tt
  by_policy-Keys backend false w (err e) h = connect_plain-Keys backend e.world h.keyed
  by_policy-Keys backend true w (ok (config, w1)) h =
      Leaves-Keys _ w1 (connect_ech_channel n backend config w1) (
        connect_ech_channel-IsAccepted n backend config w1
          (record { no_plain = refl; keyed = h.0.keyed }))
  by_policy-Keys backend false w (ok (config, w1)) h =
      or_plain-Keys backend w1 (connect_ech_channel n backend config w1) (
        connect_ech_channel-IsAccepted n backend config w1
          (record { no_plain = refl; keyed = h.0.keyed }))

  pub connect_channel-Keys :
      (backend : BackendConfig) (ech : EchConfig) (now later : ℕ) (w : World)
      → IsKeyed n.boring w.ssl_cache
      → Keys (connect_channel n backend ech now later w)
  unfolding connect_channel
  connect_channel-Keys backend ech now later w keyed =
      go backend.ech (bootstrap_ech_config n backend ech now later w) (
        bootstrap_ech_config-Leaves n backend ech now later w
          (record { no_plain = refl; keyed = keyed }))
    where
      go :
          (b : Bool) (r : Attempt Bytes)
          → Leaves n.boring w (λ config. Unit {0}) r
          → Keys (
              if b
              then with_ech n backend (is_strict n backend ech) r w
              else connect_plain n backend w)
      go false r h = connect_plain-Keys backend w keyed
      go true r h =
          Holds->>= _ _ (lift w (backend_tls_name n backend)) _
            (lift-Keys w (backend_tls_name n backend) keyed)
            (λ name kept. by_policy-Keys backend (is_strict n backend ech) w r h)

  -- A channel of a backend that must hide its name stands on an accepted handshake.
  abbrev pub IsHidden : EchConfig → BackendConfig → C → Type 0
  IsHidden ech backend c =
      backend.ech ≡ true
      → effective_ech_policy backend ech ≡ codes "strict"
      → IsAccepted n backend c

  pub connect_channel-IsHidden :
      (backend : BackendConfig) (ech : EchConfig) (now later : ℕ) (w : World)
      → IsKeyed n.boring w.ssl_cache
      → Holds (λ made. IsHidden ech backend made.0) (connect_channel n backend ech now later w)
  connect_channel-IsHidden backend ech now later w keyed =
      go (connect_channel n backend ech now later w)
        (connect_channel-IsAccepted n backend ech now later w keyed)
    where
      go :
          (r : Attempt C)
          → (backend.ech ≡ true
              → effective_ech_policy backend ech ≡ codes "strict"
              → Leaves n.boring w (IsAccepted n backend) r)
          → Holds (λ made. IsHidden ech backend made.0) r
      go (err e) h = tt
      go (ok (c, w1)) h = λ on strict. (h on strict).1
