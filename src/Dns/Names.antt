-- ===== src/Dns/Names.antt =====
-- Skipping a name: it moves forward inside the message.
use ech_rust.Dns.Outcomes.{Ends, Ends-bind, Ends-map}
use ech_rust.Base.{
  ℕ, zero, suc, ◌-◌, ◌≤◌, ◌<◌, ◌≡◌, refl, some, List, [], ◌∷◌, ok, arith, length, get_elem?,
}
use native.Mathlib.Decide.{dec_lt}
use ech_rust.Base.Text.{Bytes}
use ech_rust.Dns.{NameStep, done, next, name_step, name_round, skip_name_loop, skip_name_inner}

abbrev pub Advances : Bytes → ℕ → NameStep → Type 0
Advances message pos (done o) = (pos < o) × (o ≤ length message)
Advances message pos (next p) = (pos < p) × (pos < length message)

pub get_elem?-in : (xs : List ℕ) (i : ℕ) → i < length xs → (a : ℕ) × (get_elem? xs i ≡ some a)
get_elem?-in [] i h = absurd (omega arith)
get_elem?-in (x ∷ xs) zero h = (x, refl)
get_elem?-in (x ∷ xs) (suc i) h = get_elem?-in xs i (omega arith)

pub name_step-Ends :
    (message : Bytes) (end pos len : ℕ)
    → pos < length message
    → Ends (Advances message pos) (name_step message end pos len)
unfolding name_step
name_step-Ends message end pos len h = ground arith

pub name_round-Ends :
    (message : Bytes) (end pos : ℕ) → Ends (Advances message pos) (name_round message end pos)
unfolding name_round
name_round-Ends message end pos = elim (dec_lt pos (length message)) [
  | no past ↦ ground arith
  | yes inside ↦
      let (len, e) = get_elem?-in message pos inside in
      ground (arith, name_step-Ends message end pos len inside)
]

abbrev pub Inside : Bytes → ℕ → ℕ → Type 0
Inside message pos o = (pos < o) × (o ≤ length message)

pub skip_name_loop-Ends :
    (fuel : ℕ) (message : Bytes) (end pos : ℕ)
    → length message - pos < fuel
    → Ends (Inside message pos) (skip_name_loop fuel message end pos)
unfolding skip_name_loop
skip_name_loop-Ends zero message end pos h = absurd (omega arith)
skip_name_loop-Ends (suc fuel) message end pos h =
    Ends-bind (Advances message pos) (name_round-Ends message end pos)
      (after (λ p. skip_name_loop-Ends fuel message end p))
  where
    after :
        ((p : ℕ)
          → length message - p < fuel
          → Ends (Inside message p) (skip_name_loop fuel message end p))
        → (s : NameStep) → Advances message pos s
        → Ends
            (Inside message pos)
            (elim s [ done o ↦ ok o | next p ↦ skip_name_loop fuel message end p ])
    after ih (done o) a = record { outcome = a }
    after ih (next p) a = Ends-map (Inside message p) (ih p (omega arith)) (λ o b. omega arith)

pub skip_name_inner-Ends :
    (message : Bytes) (offset end : ℕ)
    → Ends (Inside message offset) (skip_name_inner message offset end)
unfolding skip_name_inner
skip_name_inner-Ends message offset end =
    skip_name_loop-Ends (suc (length message)) message end offset (omega arith)
