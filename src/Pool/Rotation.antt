-- ===== src/Pool/Rotation.antt =====
-- What the pools of the backends are made of.
use native.Mathlib.Nat.{mod-lt}
use mathlib.Core.Path.{subst}
use ech_rust.Base.Maps.{Map, get, contains_key}
use ech_rust.Base.Text.{Text, same}
use ech_rust.Base.{
  map_err, Holds, Holds->>=, Holds-refl, Holds-ok, ℕ, zero, suc, ◌%◌, ◌<◌, max, ◌≡◌, refl, ap, true,
  List, [], ◌∷◌, some, Result, ok, err, >>=-eq-ok, arith, length, get_elem?, Bool-cases, inl, inr,
}
use ech_rust.Config.{BackendConfig}
use ech_rust.Pool.{BackendPool, connect_channels, connect_pool, backend_failed, connect_pools, pick}

pub get_elem?-some :
    {C : Type 0} (xs : List C) (i : ℕ) → i < length xs → (x : C) × (get_elem? xs i ≡ some x)
get_elem?-some [] i h = absurd (omega arith)
get_elem?-some (x ∷ xs) zero h = (x, refl)
get_elem?-some (x ∷ xs) (suc i) h = get_elem?-some xs i (omega arith)

module _ {C W F : Type 0} (connect_channel : BackendConfig → W → Result F (C × W)) where
  connect_channels-length :
      (backend : BackendConfig) (n : ℕ) (w : W)
      → Holds (λ r. length r.0 ≡ n) (connect_channels connect_channel backend n w)
  unfolding connect_channels
  connect_channels-length backend zero w = refl
  connect_channels-length backend (suc n) w =
      Holds->>= _ _ (connect_channel backend w) _ (Holds-refl (connect_channel backend w))
        (λ c made.
          Holds->>= _ _ (connect_channels connect_channel backend n c.1) _
            (connect_channels-length backend n c.1) (λ cs count. ap suc count))

  -- The pool of a backend has as many channels as its configuration asks for, and one at least, so
  -- that each of its picks, whatever its counter stands at, gives a channel and no panic.
  pub connect_pool-pick :
      (backend : BackendConfig) (w w' : W) (pool : BackendPool C) (n : ℕ)
      → connect_pool connect_channel backend w ≡ ok (pool, w')
      → (length pool.channels ≡ max backend.pool_size 1)
        × ((c : C) × ((pick (record pool { next = n })).0 ≡ some c))
  unfolding connect_pool pick
  connect_pool-pick backend w w' pool n e =
      let count : length pool.channels ≡ max backend.pool_size 1 =
        Holds-ok (λ r. length r.0.channels ≡ max backend.pool_size 1) _ (pool, w')
          (Holds->>= _ _ (connect_channels connect_channel backend (max backend.pool_size 1) w) _
            (connect_channels-length backend (max backend.pool_size 1) w) (λ cs count. count))
          e in
      (count, get_elem?-some pool.channels (n % length pool.channels) (mod-lt n (omega arith)))

  -- Each backend of the configuration has its pool.
  pub connect_pools-get :
      (backends : Map BackendConfig) (w w' : W) (pools : Map (BackendPool C)) (id : Text)
      → connect_pools connect_channel backends w ≡ ok (pools, w')
      → contains_key id backends ≡ true
      → (pool : BackendPool C) × (get id pools ≡ some pool)
  unfolding connect_pools
  connect_pools-get [] w w' pools id e h = cc
  connect_pools-get ((k, b) ∷ rest) w w' pools id e h =
      let ((p, w1), _, e1) =
        >>=-eq-ok (map_err (backend_failed k) (connect_pool connect_channel b w)) _ e in
      let ((ps, w2), others, e2) = >>=-eq-ok (connect_pools connect_channel rest w1) _ e1 in
      let made : ((k, p) ∷ ps) ≡ pools = ap (elim [ ok m ↦ m.0 | err _ ↦ [] ]) e2 in
      subst (λ m. (pool : BackendPool C) × (get id m ≡ some pool)) made
        (elim (Bool-cases (same k id)) [
          | inl hit ↦ (p, rw hit refl)
          | inr miss ↦
              let h' = rw miss at h in
              let (q, found) = connect_pools-get rest w1 w2 ps id others h' in (q, rw miss found)
        ])
