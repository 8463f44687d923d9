-- ===== src/EchCache.antt =====
-- client/src/ech_tls.rs: the cache of ECH configurations. A time is in seconds on the clock that
-- `Instant::now` reads, and is passed in.
pub mod Lookup
pub mod Runs
use ech_rust.Base.Maps.{Map, get, insert, remove}
use ech_rust.Base.Text.{Text, Bytes}
use ech_rust.Base.{ℕ, ◌+◌, min, max, Option, none, some, ltb, if◌then◌else◌}

abbrev pub min_ech_cache_ttl : ℕ
min_ech_cache_ttl = 30

abbrev pub max_ech_cache_ttl : ℕ
max_ech_cache_ttl = 3600

pub record CachedEchConfig : Type 0 where
  pub config : Bytes
  pub expires_at : ℕ

-- `clamp`
abbrev pub clamp_ttl : ℕ → ℕ
clamp_ttl ttl = min (max ttl min_ech_cache_ttl) max_ech_cache_ttl

-- On the entry that the map has: the configuration where it has not expired; otherwise the entry
-- is removed.
abbrev pub use_entry :
    Text → ℕ → Map CachedEchConfig → Option CachedEchConfig → Option Bytes × Map CachedEchConfig
use_entry key now cache none = (none, remove key cache)
use_entry key now cache (some entry) =
    if ltb now entry.expires_at then (some entry.config, cache) else (none, remove key cache)

unfoldable pub get_cached_ech_config :
    Text → ℕ → Map CachedEchConfig → Option Bytes × Map CachedEchConfig
get_cached_ech_config key now cache = use_entry key now cache (get key cache)

unfoldable pub put_cached_ech_config :
    Text → Bytes → ℕ → ℕ → Map CachedEchConfig → Map CachedEchConfig
unfolding insert
put_cached_ech_config key config ttl now cache =
    insert key (record { config = config; expires_at = now + clamp_ttl ttl }) cache
