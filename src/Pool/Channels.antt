-- ===== src/Pool/Channels.antt =====
-- What holds of all channels, where the making of each keeps an invariant of what it shares.
use ech_rust.Base.Maps.{Map}
use ech_rust.Base.Text.{is_empty}
use ech_rust.Base.{
  ℕ, zero, suc, max, not, [], ◌∷◌, Result, ok, err, guard, map_err, All, Holds, Holds->>=,
  Holds-guard,
}
use ech_rust.Config.{BackendConfig}
use ech_rust.Pool.{
  BackendPool, no_backends, backend_failed, connect_channels, connect_pool, connect_pools, connect,
}

pub Holds-map_err {κ} :
    {E F A : Type 0} (P : A → Type κ) (f : E → F) (r : Result E A)
    → Holds P r
    → Holds P (map_err f r)
Holds-map_err P f (ok a) h = h
Holds-map_err P f (err e) h = tt

-- Every channel of the pool is one for its backend.
abbrev pub Serves : {C : Type 0} → (BackendConfig → C → Type 0) → BackendPool C → Type 0
Serves P pool = All (P pool.backend) pool.channels

module _ {C W F : Type 0} (connect_channel : BackendConfig → W → Result F (C × W))
    (Inv : W → Type 0) (P : BackendConfig → C → Type 0)
    (each : (b : BackendConfig) (w : W)
      → Inv w
      → Holds (λ r. P b r.0 × Inv r.1) (connect_channel b w)) where
  connect_channels-All :
      (b : BackendConfig) (n : ℕ) (w : W)
      → Inv w
      → Holds (λ r. All (P b) r.0 × Inv r.1) (connect_channels connect_channel b n w)
  unfolding connect_channels
  connect_channels-All b zero w h = (tt, h)
  connect_channels-All b (suc n) w h = Holds->>= _ _ (connect_channel b w) _ (each b w h) (λ c made.
      Holds->>= _ _ (connect_channels connect_channel b n c.1) _
        (connect_channels-All b n c.1 made.1) (λ cs others. ((made.0, others.0), others.1)))

  connect_pool-Serves :
      (b : BackendConfig) (w : W)
      → Inv w
      → Holds (λ r. Serves P r.0 × Inv r.1) (connect_pool connect_channel b w)
  unfolding connect_pool
  connect_pool-Serves b w h =
      Holds->>= _ _ (connect_channels connect_channel b (max b.pool_size 1) w) _
        (connect_channels-All b (max b.pool_size 1) w h) (λ cs made. made)

  connect_pools-Serves :
      (backends : Map BackendConfig) (w : W)
      → Inv w
      → Holds
          (λ r. All (λ e. Serves P e.1) r.0 × Inv r.1)
          (connect_pools connect_channel backends w)
  unfolding connect_pools
  connect_pools-Serves [] w h = (tt, h)
  connect_pools-Serves ((id, b) ∷ rest) w h =
      Holds->>= _ _ (map_err (backend_failed id) (connect_pool connect_channel b w)) _
        (Holds-map_err _ (backend_failed id) (connect_pool connect_channel b w)
          (connect_pool-Serves b w h))
        (λ p made.
          Holds->>= _ _ (connect_pools connect_channel rest p.1) _
            (connect_pools-Serves rest p.1 made.1) (λ ps others. ((made.0, others.0), others.1)))

  pub connect-Serves :
      (backends : Map BackendConfig) (w : W)
      → Inv w
      → Holds (λ r. All (λ e. Serves P e.1) r.0 × Inv r.1) (connect connect_channel backends w)
  unfolding connect
  connect-Serves backends w h =
      Holds->>= _ _ (guard (not (is_empty backends)) no_backends) _
        (Holds-guard (not (is_empty backends)) no_backends)
        (λ u some_backend. connect_pools-Serves backends w h)
