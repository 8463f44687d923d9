-- ===== src/Transport/Strict.antt =====
-- When a channel may be without Encrypted Client Hello.
use ech_rust.Base.Text.{Text, Bytes, codes, same}
use ech_rust.Base.{ℕ, ◌≡◌, refl, ap, Bool, true, false, ok, err, if◌then◌else◌}
use ech_rust.Config.{BackendConfig, EchConfig, effective_ech_policy}
use ech_rust.EchConnector.Verified.{IsKeyed}
use ech_rust.Tls.{Net, World, Attempt, backend_tls_name}
use ech_rust.Transport.{
  bootstrap_ech_config, connect_plain, or_plain, by_policy, is_strict, with_ech, connect_channel,
}
use ech_rust.Transport.Leaves.{Kept, Leaves, Leaves-from, Leaves->>=, Leaves-lift}
use ech_rust.Transport.Accepted.{
  IsAccepted, connect_ech_channel-IsAccepted, bootstrap_ech_config-Leaves,
}

module _ {C : Type 0} (n : Net C) where
  strict-by_policy :
      (backend : BackendConfig) (w : World) (r : Attempt Bytes)
      → Leaves n.boring w (λ config. Unit {0}) r
      → Leaves n.boring w (IsAccepted n backend) (by_policy n backend true r)
  strict-by_policy backend w (err e) h = h
  strict-by_policy backend w (ok (config, w1)) h = Leaves-from n.boring _ w w1 _ h.0 (
      connect_ech_channel-IsAccepted n backend config w1
        (record { no_plain = refl; keyed = h.0.keyed }))

  -- With the policy `strict` a backend with ECH never falls back: no ordinary connection is asked for,
  -- whether a channel is made or not, and a channel stands on a handshake for the backend's name that
  -- was accepted with ECH and HTTP/2, by a connector that verifies its peer.
  pub connect_channel-IsAccepted :
      (backend : BackendConfig) (ech : EchConfig) (now later : ℕ) (w : World)
      → IsKeyed n.boring w.ssl_cache
      → backend.ech ≡ true
      → effective_ech_policy backend ech ≡ codes "strict"
      → Leaves n.boring w (IsAccepted n backend) (connect_channel n backend ech now later w)
  unfolding connect_channel
  connect_channel-IsAccepted backend ech now later w keyed on strict =
      go backend.ech (is_strict n backend ech) on (ap (λ p. same p (codes "strict")) strict)
    where
      boot : Attempt Bytes
      boot = bootstrap_ech_config n backend ech now later w

      k : Kept n.boring w w
      k = record { no_plain = refl; keyed = keyed }

      go :
          (b s : Bool)
          → b ≡ true
          → s ≡ true
          → Leaves n.boring w
              (IsAccepted n backend)
              (if b then with_ech n backend s boot w else connect_plain n backend w)
      go false s h e = cc
      go true false h e = cc
      go true true h e =
          Leaves->>= n.boring _ _ w _ _ (Leaves-lift n.boring w w (backend_tls_name n backend) k)
            (λ name w1 k1 h1.
              strict-by_policy backend w boot
                (bootstrap_ech_config-Leaves n backend ech now later w k))

  -- What a channel came from: an accepted handshake, or an ordinary connection.
  pub data Falls (backend : BackendConfig) (r : Attempt C) : Type 0 where
    over_ech : (c : C) (w : World) → r ≡ ok (c, w) → IsAccepted n backend c → Falls backend r
    over_plain : (w : World) → r ≡ connect_plain n backend w → Falls backend r

  or_plain-Falls :
      (backend : BackendConfig) (w : World) (r : Attempt C)
      → Leaves n.boring w (IsAccepted n backend) r
      → Falls backend (or_plain n backend r)
  or_plain-Falls backend w (ok (c, w1)) h = over_ech c w1 refl h.1
  or_plain-Falls backend w (err e) h = over_plain e.world refl

  -- With any other policy a backend that has a name ends with a channel over an accepted handshake, or
  -- as an ordinary connection ends: no failure of ECH is reported.
  pub connect_channel-Falls :
      (backend : BackendConfig) (ech : EchConfig) (now later : ℕ) (w : World) (name : Text)
      → IsKeyed n.boring w.ssl_cache
      → backend_tls_name n backend ≡ ok name
      → is_strict n backend ech ≡ false
      → Falls backend (connect_channel n backend ech now later w)
  unfolding connect_channel
  connect_channel-Falls backend ech now later w name keyed named lax =
      go backend.ech (is_strict n backend ech) lax
    where
      boot : Attempt Bytes
      boot = bootstrap_ech_config n backend ech now later w

      lax-by_policy :
          (r : Attempt Bytes)
          → Leaves n.boring w (λ config. Unit {0}) r
          → Falls backend (by_policy n backend false r)
      lax-by_policy (err e) h = over_plain e.world refl
      lax-by_policy (ok (config, w1)) h = or_plain-Falls backend w1 _ (
          connect_ech_channel-IsAccepted n backend config w1
            (record { no_plain = refl; keyed = h.0.keyed }))

      go :
          (b s : Bool)
          → s ≡ false
          → Falls backend (if b then with_ech n backend s boot w else connect_plain n backend w)
      go false s h = over_plain w refl
      go true true h = cc
      go true false h = rw named (
          lax-by_policy boot (
            bootstrap_ech_config-Leaves n backend ech now later w
              (record { no_plain = refl; keyed = keyed })))
