-- ===== src/EchCache/Runs.antt =====
-- The cache of ECH configurations against a memory of what was stored last under each key.
use ech_rust.Base.Maps.{Map, get, insert, get-remove_other}
use ech_rust.Base.Text.{Text, Bytes, same}
use ech_rust.Base.{
  ℕ, ◌+◌, min, max, ◌≤◌, ◌≡◌, refl, ap, ◌∙◌, List, [], ◌∷◌, Option, none, some, Bool-cases, inl,
  inr, if◌then◌else◌, arith, ltb,
}
use ech_rust.EchCache.Lookup.{fresh, get_cached-fresh, after_lookup}
use ech_rust.EchCache.{CachedEchConfig, get_cached_ech_config, put_cached_ech_config}

-- A call of the cache with the time at which it is made.
pub data Call : Type 0 where
  lookup : Text → ℕ → Call
  store : Text → Bytes → ℕ → ℕ → Call

abbrev pub time : Call → ℕ
time (lookup key now) = now
time (store key config ttl now) = now

-- The calls are made in the order of their times, from `t` on.
unfoldable pub IsTimed : ℕ → List Call → Type 0
IsTimed t [] = Unit
IsTimed t (c ∷ cs) = (t ≤ time c) × IsTimed (time c) cs

-- The answers to the lookups, in order.
pub answers : List Call → Map CachedEchConfig → List (Option Bytes)
answers [] cache = []
answers (lookup key now ∷ cs) cache =
    (get_cached_ech_config key now cache).0 ∷ answers cs (get_cached_ech_config key now cache).1
answers (store key config ttl now ∷ cs) cache =
    answers cs (put_cached_ech_config key config ttl now cache)

-- A memory of the last configuration of each key, with the time until which it counts. Nothing is ever
-- removed from it.
abbrev pub Memory : Type 0
Memory = Text → Option (Bytes × ℕ)

abbrev pub remembered : ℕ → Option (Bytes × ℕ) → Option Bytes
remembered now none = none
remembered now (some (config, until)) = if ltb now until then some config else none

abbrev pub stored : Text → Bytes × ℕ → Memory → Memory
stored key entry memory asked = if same key asked then some entry else memory asked

pub expected : List Call → Memory → List (Option Bytes)
expected [] memory = []
expected (lookup key now ∷ cs) memory = remembered now (memory key) ∷ expected cs memory
expected (store key config ttl now ∷ cs) memory =
    expected cs (stored key (config, now + min (max ttl 30) 3600) memory)

-- The cache and the memory give the same from `t` on.
abbrev Agree : ℕ → Map CachedEchConfig → Memory → Type 0
Agree t cache memory =
    (key : Text) (later : ℕ)
    → t ≤ later
    → fresh later (get key cache) ≡ remembered later (memory key)

Agree-lookup :
    (t now : ℕ) (key : Text) (cache : Map CachedEchConfig) (memory : Memory)
    → t ≤ now
    → Agree t cache memory
    → Agree now (get_cached_ech_config key now cache).1 memory
Agree-lookup t now key cache memory h agree asked later k =
    after_lookup key asked now later cache k ∙ agree asked later (omega arith)

Agree-store :
    (t now : ℕ) (key : Text) (config : Bytes) (ttl : ℕ) (cache : Map CachedEchConfig)
    (memory : Memory)
    → t ≤ now
    → Agree t cache memory
    → Agree now
        (put_cached_ech_config key config ttl now cache)
        (stored key (config, now + min (max ttl 30) 3600) memory)
unfolding put_cached_ech_config insert
Agree-store t now key config ttl cache memory h agree asked later k =
    elim (Bool-cases (same key asked)) [
      | inl hit ↦ rw hit refl
      | inr miss ↦ rw miss (
          ap (fresh later) (get-remove_other key asked cache miss)
          ∙ agree asked later (omega arith))
    ]

answers-from :
    (t : ℕ) (cs : List Call) (cache : Map CachedEchConfig) (memory : Memory)
    → IsTimed t cs
    → Agree t cache memory
    → answers cs cache ≡ expected cs memory
unfolding IsTimed answers expected
answers-from t [] cache memory timed agree = refl
answers-from t (lookup key now ∷ cs) cache memory timed agree =
    let (h, rest) = timed in
    let first = get_cached-fresh key now cache ∙ agree key now h in
    let others =
      answers-from now cs (get_cached_ech_config key now cache).1 memory rest
        (Agree-lookup t now key cache memory h agree) in
    cc
answers-from t (store key config ttl now ∷ cs) cache memory timed agree =
    let (h, rest) = timed in
    answers-from now cs _ _ rest (Agree-store t now key config ttl cache memory h agree)

-- Whatever lookups and stores follow each other, in the order of their times, an empty cache answers
-- each lookup with the configuration that was stored last under its key, until its time to live has
-- passed, which is taken as 30 seconds where it is less and as an hour where it is more: no removal of
-- an expired entry loses an answer, and no expired entry is given.
pub answers-expected : (cs : List Call) → IsTimed 0 cs → answers cs [] ≡ expected cs (λ key. none)
answers-expected cs timed = answers-from 0 cs [] (λ key. none) timed (λ key later h. refl)
