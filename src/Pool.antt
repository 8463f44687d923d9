-- ===== src/Pool.antt =====
-- client/src/grpc_pool.rs: the channels to each backend.
pub mod Rotation
pub mod Channels
use ech_rust.Base.Maps.{Map}
use ech_rust.Config.{BackendConfig}
use ech_rust.Base.Text.{Text, is_empty}
use ech_rust.Base.{
  map_err, ℕ, zero, suc, ◌+◌, ◌*◌, ◌%◌, ◌^◌, max, not, List, [], ◌∷◌, Option, none, some, Result,
  ok, err, ◌>>=◌, ◌>>◌, guard, length, get_elem?,
}

-- `C` is the type of the channels.
pub record BackendPool (C : Type 0) : Type 0 where
  pub backend : BackendConfig
  pub channels : List C
  pub next : ℕ
  pub stream_permits : ℕ

-- `F` is the type of what a failed connection reports.
pub data PoolError (F : Type 0) : Type 0 where
  no_backends : PoolError F
  backend_failed : Text → F → PoolError F

-- `W` is what the making of a channel reads and changes.
module _ {C W F : Type 0} (connect_channel : BackendConfig → W → Result F (C × W)) where
  -- `for _ in 0..pool_size`
  pub connect_channels : BackendConfig → ℕ → W → Result F (List C × W)
  connect_channels backend zero w = ok ([], w)
  connect_channels backend (suc n) w = do
    (channel, w1) ← connect_channel backend w
    (channels, w2) ← connect_channels backend n w1
    ok (channel ∷ channels, w2)

  -- `BackendPool::connect`
  unfoldable pub connect_pool : BackendConfig → W → Result F (BackendPool C × W)
  unfolding connect_channels
  connect_pool backend w = do
    let pool_size = max backend.pool_size 1
    (channels, w1) ← connect_channels backend pool_size w
    ok (
      record {
        backend = backend;
        channels = channels;
        next = 0;
        stream_permits = pool_size * max backend.max_streams_per_channel 1 % 2 ^ 64;
      },
      w1,
    )

  unfoldable pub connect_pools :
      Map BackendConfig → W → Result (PoolError F) (Map (BackendPool C) × W)
  unfolding connect_pool
  connect_pools [] w = ok ([], w)
  connect_pools ((id, backend) ∷ rest) w = do
    (pool, w1) ← map_err (backend_failed id) (connect_pool backend w)
    (pools, w2) ← connect_pools rest w1
    ok ((id, pool) ∷ pools, w2)

  -- `PoolRegistry::connect`
  unfoldable pub connect : Map BackendConfig → W → Result (PoolError F) (Map (BackendPool C) × W)
  unfolding connect_pools
  connect backends w = do guard (not (is_empty backends)) no_backends; connect_pools backends w

-- `%` by the number of channels, `none` where there is none (the division panics); the counter
-- wraps around.
unfoldable pub pick : {C : Type 0} → BackendPool C → Option C × BackendPool C
pick pool = (
  get_elem? pool.channels (pool.next % length pool.channels),
  record pool { next = (pool.next + 1) % 2 ^ 64 },
)

-- `none` is where it waits, since no permit is left. The semaphore is never closed.
unfoldable pub acquire_stream_permit : {C : Type 0} → BackendPool C → Option (BackendPool C)
acquire_stream_permit pool = elim pool.stream_permits [
  | zero ↦ none
  | suc left ↦ some (record pool { stream_permits = left })
]

-- `drop` of the permit
unfoldable pub release_stream_permit : {C : Type 0} → BackendPool C → BackendPool C
release_stream_permit pool = record pool { stream_permits = pool.stream_permits + 1 }
