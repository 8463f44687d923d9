-- ===== src/Tunnel/Limiter.antt =====
-- client/src/tunnel.rs and client/src/grpc_pool.rs: the streams that share a pool, each of which holds
-- a permit from before its call starts until `relay_grpc` returns.
pub mod Permits
use ech_rust.Base.Text.{Text, Bytes}
use ech_rust.Base.{ℕ, suc, ◌+◌, ◌≡◌, Bool, List, [], ◌∷◌, ◌++◌, some, ok, err}
use ech_rust.Pool.{BackendPool, acquire_stream_permit, release_stream_permit}
use ech_rust.Tunnel.{Call, TunnelError, start_call}

-- `entered` counts the streams that have a permit and no call yet.
pub record Limiter (C : Type 0) : Type 0 where
  pub pool : BackendPool C
  pub entered : ℕ
  pub calls : List (Call C)

abbrev pub idle : {C : Type 0} → BackendPool C → Limiter C
idle pool = record { pool = pool; entered = 0; calls = [] }

module _ {C : Type 0} (is_metadata : Text → Bool) where
  -- A stream gets its permit, starts its call, has no call since the token is no metadata value, or
  -- ends, however the call of it ended.
  pub data Step (s u : Limiter C) : Type 0 where
    enters :
        (pool : BackendPool C)
        → acquire_stream_permit s.pool ≡ some pool
        → u ≡ record s { pool = pool; entered = s.entered + 1 }
        → Step s u
    starts :
        (n : ℕ) (host : Text) (port : ℕ) (payload : Bytes) (call : Call C) (pool : BackendPool C)
        → s.entered ≡ suc n
        → start_call is_metadata s.pool host port payload ≡ (ok call, pool)
        → u ≡ record { pool = pool; entered = n; calls = call ∷ s.calls }
        → Step s u
    refused :
        (n : ℕ) (host : Text) (port : ℕ) (payload : Bytes) (e : TunnelError) (pool : BackendPool C)
        → s.entered ≡ suc n
        → start_call is_metadata s.pool host port payload ≡ (err e, pool)
        → u ≡ record s { pool = release_stream_permit pool; entered = n }
        → Step s u
    ends :
        (before after : List (Call C)) (call : Call C)
        → s.calls ≡ before ++ (call ∷ after)
        → u ≡ record s { pool = release_stream_permit s.pool; calls = before ++ after }
        → Step s u

  pub data Reach (s : Limiter C) : Limiter C → Type 0 where
    here : Reach s s
    next : {t u : Limiter C} → Reach s t → Step t u → Reach s u
