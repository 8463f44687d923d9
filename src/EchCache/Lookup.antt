-- ===== src/EchCache/Lookup.antt =====
-- What the cache of ECH configurations answers.
use mathlib.Core.Path.{subst}
use ech_rust.Base.Maps.{Map, get, insert, remove, get-remove, get-remove_other}
use ech_rust.Base.Text.{Text, Bytes, same, same→≡}
use ech_rust.Base.{
  ℕ, ◌+◌, min, max, ◌≤◌, ◌≡◌, refl, sym, ap, ◌∙◌, false, Option, none, some, ltb, arith, Bool-cases,
  inl, inr, if◌then◌else◌,
}
use ech_rust.EchCache.{CachedEchConfig, use_entry, get_cached_ech_config, put_cached_ech_config}

-- The configuration that an entry still gives at a time.
abbrev pub fresh : ℕ → Option CachedEchConfig → Option Bytes
fresh now none = none
fresh now (some entry) = if ltb now entry.expires_at then some entry.config else none

pub get_cached-fresh :
    (key : Text) (now : ℕ) (cache : Map CachedEchConfig)
    → (get_cached_ech_config key now cache).0 ≡ fresh now (get key cache)
unfolding get_cached_ech_config
get_cached-fresh key now cache = go (get key cache)
  where
    go : (o : Option CachedEchConfig) → (use_entry key now cache o).0 ≡ fresh now o
    go none = refl
    go (some entry) = elim (Bool-cases (ltb now entry.expires_at)) [
      | inl live ↦ rw live refl
      | inr expired ↦ rw expired refl
    ]

-- Where the entry of a key gives nothing any more, removing it changes no answer.
fresh-remove :
    (key other : Text) (later : ℕ) (cache : Map CachedEchConfig)
    → fresh later (get key cache) ≡ none
    → fresh later (get other (remove key cache)) ≡ fresh later (get other cache)
fresh-remove key other later cache h = elim (Bool-cases (same key other)) [
  | inr apart ↦ ap (fresh later) (get-remove_other key other cache apart)
  | inl hit ↦
      subst (λ k. fresh later (get k (remove key cache)) ≡ fresh later (get k cache))
        (same→≡ key other hit) (ap (fresh later) (get-remove key cache) ∙ sym h)
]

pub after_lookup :
    (key other : Text) (now later : ℕ) (cache : Map CachedEchConfig)
    → now ≤ later
    → fresh later (get other (get_cached_ech_config key now cache).1)
      ≡ fresh later (get other cache)
unfolding get_cached_ech_config
after_lookup key other now later cache h = go (get key cache) refl
  where
    go :
        (o : Option CachedEchConfig)
        → get key cache ≡ o
        → fresh later (get other (use_entry key now cache o).1) ≡ fresh later (get other cache)
    go none e = fresh-remove key other later cache (rw e refl)
    go (some entry) e = elim (Bool-cases (ltb now entry.expires_at)) [
      | inl live ↦ rw live refl
      | inr expired ↦
          let over : ltb later entry.expires_at ≡ false = ground arith in
          rw expired (fresh-remove key other later cache (rw (e, over) refl))
    ]

-- A lookup changes no answer of the same time or of a later one, whether it finds an entry or
-- removes it.
pub get_cached_ech_config-get_cached_ech_config :
    (key other : Text) (now later : ℕ) (cache : Map CachedEchConfig)
    → now ≤ later
    → (get_cached_ech_config other later (get_cached_ech_config key now cache).1).0
      ≡ (get_cached_ech_config other later cache).0
get_cached_ech_config-get_cached_ech_config key other now later cache h =
    get_cached-fresh other later _
    ∙ after_lookup key other now later cache h
    ∙ sym (get_cached-fresh other later cache)

-- After a configuration is stored, a lookup of its key finds it until its time to live has passed,
-- which is taken as 30 seconds where it is less and as an hour where it is more; a lookup of
-- another key finds what it found before.
pub get_cached_ech_config-put :
    (key asked : Text) (config : Bytes) (ttl now later : ℕ) (cache : Map CachedEchConfig)
    → (get_cached_ech_config asked later (put_cached_ech_config key config ttl now cache)).0 ≡ (
        if same key asked
        then (if ltb later (now + min (max ttl 30) 3600) then some config else none)
        else (get_cached_ech_config asked later cache).0)
unfolding put_cached_ech_config insert
get_cached_ech_config-put key asked config ttl now later cache =
    get_cached-fresh asked later _ ∙ elim (Bool-cases (same key asked)) [
      | inl hit ↦ rw hit refl
      | inr miss ↦ rw miss (
          ap (fresh later) (get-remove_other key asked cache miss)
          ∙ sym (get_cached-fresh asked later cache))
    ]
