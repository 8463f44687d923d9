-- ===== src/Dns/Outcomes.antt =====
-- Runs of the readers, and how they can end.
use ech_rust.Base.{
  ℕ, ◌+◌, ◌≤◌, ◌≡◌, refl, Bool, true, false, Option, none, some, Result, ok, err, ◌>>=◌, guard,
  ok_or, arith, length,
}
use ech_rust.Base.Text.{Bytes}
use ech_rust.Dns.{DnsError, panicked, out_of_fuel, read_u16, read_u16_at, read_u32_at, skip_bytes}

-- An error that the code reports by `bail!` or `context`.
abbrev pub IsReported : DnsError → Type 0
IsReported panicked = ⊥
IsReported out_of_fuel = ⊥
IsReported _ = Unit

-- The run ends with a result that satisfies `P`, or with an error that the code reports.
abbrev pub Outcome : {A : Type 0} → (A → Type 0) → Result DnsError A → Type 0
Outcome P (ok a) = P a
Outcome P (err e) = IsReported e

-- A record, so that a goal shows the run and the property.
pub record Ends {A : Type 0} (P : A → Type 0) (r : Result DnsError A) : Type 0 where
  pub outcome : Outcome P r

pub Ends-bind :
    {A B : Type 0} (P : A → Type 0) {Q : B → Type 0} {m : Result DnsError A}
    {f : A → Result DnsError B}
    → Ends P m
    → ((a : A) → P a → Ends Q (f a))
    → Ends Q (m >>= f)
Ends-bind {A} {B} P {Q} {m} {f} h k = go m h k
  where
    go : (m : Result DnsError A) → Ends P m → ((a : A) → P a → Ends Q (f a)) → Ends Q (m >>= f)
    go (ok a) h k = k a h.outcome
    go (err e) h k = record { outcome = h.outcome }

pub Ends-map :
    {A : Type 0} (P : A → Type 0) {Q : A → Type 0} {m : Result DnsError A}
    → Ends P m
    → ((a : A) → P a → Q a)
    → Ends Q m
Ends-map {A} P {Q} {m} h k = go m h k
  where
    go : (m : Result DnsError A) → Ends P m → ((a : A) → P a → Q a) → Ends Q m
    go (ok a) h k = record { outcome = k a h.outcome }
    go (err e) h k = record { outcome = h.outcome }

pub guard-Ends : (b : Bool) (e : DnsError) → IsReported e → Ends (λ _. b ≡ true) (guard b e)
guard-Ends true e r = record { outcome = refl }
guard-Ends false e r = record { outcome = r }

pub ok_or-Ends :
    {A : Type 0} (e : DnsError) (o : Option A) → IsReported e → Ends (λ _. Unit {0}) (ok_or e o)
ok_or-Ends e none r = record { outcome = r }
ok_or-Ends e (some a) r = record { outcome = tt }

pub skip_bytes-Ends :
    (message : Bytes) (offset count : ℕ)
    → Ends (λ o. (o ≡ offset + count) × (o ≤ length message)) (skip_bytes message offset count)
unfolding skip_bytes
skip_bytes-Ends message offset count = ground arith

abbrev pub IsPast : Bytes → ℕ → ℕ × ℕ → Type 0
IsPast message o (value, o') = (o' ≡ o) × (o' ≤ length message)

pub read_u16-Ends : (message : Bytes) (offset : ℕ) → Ends (λ _. Unit {0}) (read_u16 message offset)
unfolding read_u16
read_u16-Ends message offset = ground arith

pub read_u16_at-Ends :
    (message : Bytes) (offset : ℕ) → Ends (IsPast message (offset + 2)) (read_u16_at message offset)
unfolding read_u16_at read_u16
read_u16_at-Ends message offset = ground arith

pub read_u32_at-Ends :
    (message : Bytes) (offset : ℕ) → Ends (IsPast message (offset + 4)) (read_u32_at message offset)
unfolding read_u32_at
read_u32_at-Ends message offset = ground arith
