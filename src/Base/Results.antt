-- ===== src/Base/Results.antt =====
-- `Result<A, E>`, with the monad that `?` works in.
use mathlib.Core.Path.{◌≡◌, refl, subst}
use mathlib.Core.Logic.{◌⊎◌, inl, inr}
use mathlib.Core.Option.{Option, none, some}
use mathlib.Core.Bool.{Bool, true, false}

pub data Result {κ ℓ} (E : Type κ) (A : Type ℓ) : Type (κ ⊔ ℓ) where
  ok : A → Result E A
  err : E → Result E A

infixl 5 ◌>>=◌ ◌>>◌
abbrev pub ◌>>=◌ {κ ℓ μ} :
    {E : Type κ} {A : Type ℓ} {B : Type μ} → Result E A → (A → Result E B) → Result E B
ok a >>= f = f a
err e >>= f = err e

abbrev pub ◌>>◌ {κ ℓ} : {E : Type κ} {B : Type ℓ} → Result E (Unit {0}) → Result E B → Result E B
m >> k = m >>= λ _. k

-- `if !test { bail!(e) }`
abbrev pub guard {κ} : {E : Type κ} → Bool → E → Result E (Unit {0})
guard true e = ok tt
guard false e = err e

-- `ok_or(e)?` and `context(e)?`
abbrev pub ok_or {κ ℓ} : {E : Type κ} {A : Type ℓ} → E → Option A → Result E A
ok_or e none = err e
ok_or e (some a) = ok a

pub guard-eq-ok {κ} : {E : Type κ} (b : Bool) (e : E) {u : Unit {0}} → guard b e ≡ ok u → b ≡ true
guard-eq-ok true e h = refl
guard-eq-ok false e h = cc

-- Inversion of a successful bind, for proofs where the parts stay shut.
pub >>=-eq-ok {κ ℓ μ} :
    {E : Type κ} {A : Type ℓ} {B : Type μ} (run : Result E A) (k : A → Result E B) {y : B}
    → (run >>= k) ≡ ok y
    → (x : A) × (run ≡ ok x) × (k x ≡ ok y)
>>=-eq-ok (err e) k returned = cc
>>=-eq-ok (ok x) k returned = (x, refl, returned)

-- To split on a computed result and keep the equation.
pub Result-cases {κ ℓ} :
    {E : Type κ} {A : Type ℓ} (r : Result E A) → ((a : A) × (r ≡ ok a)) ⊎ ((e : E) × (r ≡ err e))
Result-cases (ok a) = inl (a, refl)
Result-cases (err e) = inr (e, refl)

-- What a result satisfies where it is one.
abbrev pub Holds {κ ℓ μ} : {E : Type κ} {A : Type ℓ} → (A → Type μ) → Result E A → Type μ
Holds P (ok a) = P a
Holds P (err e) = Unit

module _ {κ ℓ} {E : Type κ} {A : Type ℓ} where
  pub Holds->>= {μ ν ρ} :
      {B : Type μ} (P : A → Type ν) (Q : B → Type ρ) (run : Result E A) (k : A → Result E B)
      → Holds P run
      → ((a : A) → P a → Holds Q (k a))
      → Holds Q (run >>= k)
  Holds->>= P Q (ok a) k h step = step a h
  Holds->>= P Q (err e) k h step = tt

  pub Holds-ok_or : (e : E) (o : Option A) → Holds (λ a. o ≡ some a) (ok_or e o)
  Holds-ok_or e none = tt
  Holds-ok_or e (some a) = refl

  -- Every result satisfies that it is the one.
  pub Holds-refl : (r : Result E A) → Holds (λ a. r ≡ ok a) r
  Holds-refl (ok a) = refl
  Holds-refl (err e) = tt

  pub Holds-ok {ν} : (P : A → Type ν) (r : Result E A) (a : A) → Holds P r → r ≡ ok a → P a
  Holds-ok P r a h e = subst (Holds P) e h

pub Holds-guard {κ} : {E : Type κ} (b : Bool) (e : E) → Holds (λ u. b ≡ true) (guard b e)
Holds-guard true e = refl
Holds-guard false e = tt

abbrev pub map_err {κ ℓ μ} :
    {E : Type κ} {F : Type ℓ} {A : Type μ} → (E → F) → Result E A → Result F A
map_err f (ok a) = ok a
map_err f (err e) = err (f e)
