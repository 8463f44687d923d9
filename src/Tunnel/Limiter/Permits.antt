-- ===== src/Tunnel/Limiter/Permits.antt =====
-- The bound on the streams of a pool.
use mathlib.Core.Path.{subst}
use native.Mathlib.Nat.{mod-lt}
use ech_rust.Base.Text.{Text, Bytes}
use ech_rust.Base.{
  ℕ, zero, suc, ◌+◌, ◌*◌, ◌%◌, ◌^◌, ◌<◌, max, ◌≡◌, ◌↔◌, refl, sym, ap, ◌∙◌, Bool, inl, inr,
  Bool-cases, List, [], ◌∷◌, ◌++◌, none, some, Result, ok, length, get_elem?, All, arith, Holds,
  Holds->>=, Holds-refl, Holds-ok,
}
use ech_rust.Config.{BackendConfig}
use ech_rust.Pool.Rotation.{connect_pool-pick}
use ech_rust.Pool.{
  BackendPool, connect_pool, connect_channels, pick, acquire_stream_permit, release_stream_permit,
}
use ech_rust.Tunnel.Limiter.{Limiter, idle, Step, enters, starts, refused, ends, Reach, here, next}
use ech_rust.Tunnel.{Call, bearer, start_call}

length-middle :
    {A : Type 0} (before after : List A) (a : A)
    → length (before ++ (a ∷ after)) ≡ length (before ++ after) + 1
length-middle [] after a = omega arith
length-middle (b ∷ before) after a = ground (arith, length-middle before after a)

All-middle :
    {A : Type 0} (P : A → Type 0) (before after : List A) (a : A)
    → All P (before ++ (a ∷ after))
    → All P (before ++ after)
All-middle P [] after a h = h.1
All-middle P (b ∷ before) after a h = (h.0, All-middle P before after a h.1)

module _ {C : Type 0} where
  acquire_stream_permit-eq :
      (pool left : BackendPool C)
      → acquire_stream_permit pool ≡ some left
      → (left.channels ≡ pool.channels) × (pool.stream_permits ≡ left.stream_permits + 1)
  unfolding acquire_stream_permit
  acquire_stream_permit-eq pool left e = go pool.stream_permits refl e
    where
      go :
          (n : ℕ)
          → pool.stream_permits ≡ n
          → (elim n [ zero ↦ none | suc m ↦ some (record pool { stream_permits = m }) ]) ≡ some left
          → (left.channels ≡ pool.channels) × (pool.stream_permits ≡ left.stream_permits + 1)
      go zero h e' = cc
      go (suc m) h e' =
          let own : (record pool { stream_permits = m }) ≡ left =
            ap (elim [ some p ↦ p | none ↦ left ]) e' in
          (
            sym (ap (λ (p : BackendPool C). p.channels) own),
            subst (λ (p : BackendPool C). pool.stream_permits ≡ p.stream_permits + 1) own
                (ground arith),
          )

  acquire_stream_permit-none :
      (pool : BackendPool C) → (acquire_stream_permit pool ≡ none) ↔ (pool.stream_permits ≡ 0)
  unfolding acquire_stream_permit
  acquire_stream_permit-none pool = go pool.stream_permits
    where
      go :
          (n : ℕ)
          → ((elim n [ zero ↦ none | suc m ↦ some (record pool { stream_permits = m }) ]) ≡ none)
            ↔ (n ≡ 0)
      go zero = ((λ e. refl), (λ e. refl))
      go (suc m) = ((λ e. cc), (λ e. absurd (omega arith)))

  -- The counter goes on, and what started has the channel that was picked.
  start_call-pick :
      (is_metadata : Text → Bool) (pool : BackendPool C) (host : Text) (port : ℕ) (payload : Bytes)
      → ((start_call is_metadata pool host port payload).1 ≡ (pick pool).1)
        × Holds
            (λ call. call.channel ≡ (pick pool).0)
            (start_call is_metadata pool host port payload).0
  unfolding start_call
  start_call-pick is_metadata pool host port payload =
      elim (Bool-cases (is_metadata (bearer pool.backend.auth_token))) [
        | inl fits ↦ rw fits (refl, refl)
        | inr unfit ↦ rw unfit (refl, tt)
      ]

module _ {C : Type 0} (is_metadata : Text → Bool) (total : ℕ) (channels : List C) where
  -- The call has one of the channels.
  abbrev HasChannel : Call C → Type 0
  HasChannel call = (i : ℕ) × (i < length channels) × (call.channel ≡ get_elem? channels i)

  record IsLimited (s : Limiter C) : Type 0 where
    accounted : s.pool.stream_permits + (s.entered + length s.calls) ≡ total
    kept : s.pool.channels ≡ channels
    served : All HasChannel s.calls

  Step-IsLimited :
      (s u : Limiter C) → 0 < length channels → IsLimited s → Step is_metadata s u → IsLimited u
  unfolding pick release_stream_permit
  Step-IsLimited s u some_channel h (enters pool e made) =
      let (same_channels, left) = acquire_stream_permit-eq s.pool pool e in
      let counted = h.accounted in
      subst IsLimited (sym made) (record {
        accounted = ground (arith, left, counted);
        kept = same_channels ∙ h.kept;
        served = h.served;
      })
  Step-IsLimited s u some_channel h (starts n host port payload call pool held e made) =
      let (goes, has) = start_call-pick is_metadata s.pool host port payload in
      let after : pool ≡ (pick s.pool).1 = sym (ap (λ r. r.1) e) ∙ goes in
      let channel : call.channel ≡ (pick s.pool).0 =
        subst (Holds (λ (c : Call C). c.channel ≡ (pick s.pool).0)) (ap (λ r. r.0) e) has in
      let counted = h.accounted in
      subst IsLimited
        (ap (λ p. record { pool = p; entered = n; calls = call ∷ s.calls }) (sym after) ∙ sym made)
        (record {
          accounted = ground (arith, held, counted);
          kept = h.kept;
          served = (
            (
              s.pool.next % length channels,
              mod-lt s.pool.next some_channel,
              channel ∙ ap (λ cs. get_elem? cs (s.pool.next % length cs)) h.kept,
            ),
            h.served,
          );
        })
  Step-IsLimited s u some_channel h (refused n host port payload error pool held e made) =
      let (goes, _) = start_call-pick is_metadata s.pool host port payload in
      let after : pool ≡ (pick s.pool).1 = sym (ap (λ r. r.1) e) ∙ goes in
      let counted = h.accounted in
      subst IsLimited
        (ap (λ p. record s { pool = release_stream_permit p; entered = n }) (sym after) ∙ sym made)
        (record { accounted = ground (arith, held, counted); kept = h.kept; served = h.served })
  Step-IsLimited s u some_channel h (ends before after call e made) =
      let counted = h.accounted in
      let fewer = ap length e ∙ length-middle before after call in
      subst IsLimited (sym made) (record {
        accounted = ground (arith, fewer, counted);
        kept = h.kept;
        served = All-middle HasChannel before after call (subst (All HasChannel) e h.served);
      })

  Reach-IsLimited :
      (s u : Limiter C) → 0 < length channels → IsLimited s → Reach is_metadata s u → IsLimited u
  Reach-IsLimited s u some_channel h here = h
  Reach-IsLimited s u some_channel h (next {t = t} before step) =
      Step-IsLimited t u some_channel (Reach-IsLimited s t some_channel h before) step

connect_pool-permits :
    {C W F : Type 0} (connect_channel : BackendConfig → W → Result F (C × W))
    (backend : BackendConfig) (w : W)
    → Holds
        (λ r.
          r.0.stream_permits
          ≡ max backend.pool_size 1 * max backend.max_streams_per_channel 1 % 2 ^ 64)
        (connect_pool connect_channel backend w)
unfolding connect_pool
connect_pool-permits connect_channel backend w =
    Holds->>= _ _ (connect_channels connect_channel backend (max backend.pool_size 1) w) _
      (Holds-refl (connect_channels connect_channel backend (max backend.pool_size 1) w))
      (λ cs made. refl)

-- However the streams of a pool begin and end, the permits that are left and the streams that hold one
-- make up the number of channels times the number of streams for each, at least one of either and
-- modulo `2 ^ 64`; so there are never more calls than that, and a stream waits exactly where that many
-- hold a permit. Each call has one of the channels: no pick panics.
pub Reach-stream_permits :
    {C W F : Type 0} (connect_channel : BackendConfig → W → Result F (C × W))
    (is_metadata : Text → Bool) (backend : BackendConfig) (w w' : W) (pool : BackendPool C)
    (u : Limiter C)
    → connect_pool connect_channel backend w ≡ ok (pool, w')
    → Reach is_metadata (idle pool) u
    → let total = max backend.pool_size 1 * max backend.max_streams_per_channel 1 % 2 ^ 64 in
      (u.pool.stream_permits + (u.entered + length u.calls) ≡ total)
      × ((acquire_stream_permit u.pool ≡ none) ↔ (u.entered + length u.calls ≡ total))
      × All
          (λ call.
            (i : ℕ) × (i < length pool.channels) × (call.channel ≡ get_elem? pool.channels i))
          u.calls
Reach-stream_permits connect_channel is_metadata backend w w' pool u connected reached =
    let count = (connect_pool-pick connect_channel backend w w' pool 0 connected).0 in
    let permits =
      Holds-ok _ _ (pool, w') (connect_pool-permits connect_channel backend w) connected in
    let limited =
      Reach-IsLimited is_metadata
        (max backend.pool_size 1 * max backend.max_streams_per_channel 1 % 2 ^ 64) pool.channels
        (idle pool) u (omega arith) (record { accounted = omega arith; kept = refl; served = tt })
        reached in
    let counted = limited.accounted in
    let waiting = acquire_stream_permit-none u.pool in
    (
      counted,
      (
        (λ waits. let none_left = waiting.0 waits in omega arith),
        (λ full. waiting.1 (omega arith)),
      ),
      limited.served,
    )
