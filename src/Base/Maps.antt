-- ===== src/Base/Maps.antt =====
-- A map with texts as its keys, as the list of its entries.
use mathlib.Core.Option.{Option, none, some}
use mathlib.Core.List.{List, [], ◌∷◌}
use ech_rust.Base.Lists.{All}
use ech_rust.Base.Tests.{if◌then◌else◌, Bool-cases}
use ech_rust.Base.Text.{Text, same, same→≡, is_some}
use mathlib.Core.Bool.{Bool, false}
use mathlib.Core.Path.{◌≡◌, refl, sym, ap, subst}
use mathlib.Core.Logic.{inl, inr}

abbrev pub Map {ℓ} : Type ℓ → Type ℓ
Map A = List (Text × A)

-- `HashMap::get`
abbrev pub get {ℓ} : {A : Type ℓ} → Text → Map A → Option A
get key [] = none
get key ((k, v) ∷ rest) = if same k key then some v else get key rest

-- `HashMap::contains_key`
abbrev pub contains_key {ℓ} : {A : Type ℓ} → Text → Map A → Bool
contains_key key m = is_some (get key m)

-- `HashMap::remove`
unfoldable pub remove {ℓ} : {A : Type ℓ} → Text → Map A → Map A
remove key [] = []
remove key ((k, v) ∷ rest) =
    let others = remove key rest in if same k key then others else (k, v) ∷ others

-- `HashMap::insert`
unfoldable pub insert {ℓ} : {A : Type ℓ} → Text → A → Map A → Map A
unfolding remove
insert key v m = (key, v) ∷ remove key m

module _ {ℓ} {A : Type ℓ} where
  pub get-remove : (key : Text) (m : Map A) → get key (remove key m) ≡ none
  unfolding remove
  get-remove key [] = refl
  get-remove key ((k, v) ∷ rest) = elim (Bool-cases (same k key)) [
    | inl hit ↦ rw hit (get-remove key rest)
    | inr miss ↦ rw (miss, miss) (get-remove key rest)
  ]

  pub get-remove_other :
      (key other : Text) (m : Map A)
      → same key other ≡ false
      → get other (remove key m) ≡ get other m
  unfolding remove
  get-remove_other key other [] h = refl
  get-remove_other key other ((k, v) ∷ rest) h = elim (Bool-cases (same k key)) [
    | inl hit ↦
        let apart : same k other ≡ false =
          subst (λ t. same t other ≡ false) (sym (same→≡ k key hit)) h in
        rw (hit, apart) (get-remove_other key other rest h)
    | inr miss ↦ rw miss (elim (Bool-cases (same k other)) [
      | inl here ↦ rw here refl
      | inr there ↦ rw there (get-remove_other key other rest h)
    ])
  ]

  -- What holds of all entries holds of the one that is found.
  pub All-get {κ} :
      (P : A → Type κ) (m : Map A) (key : Text) (a : A)
      → All (λ e. P e.1) m
      → get key m ≡ some a
      → P a
  All-get P [] key a h e = cc
  All-get P ((k, v) ∷ rest) key a h e = elim (Bool-cases (same k key)) [
    | inl hit ↦ let e' = rw hit at e in subst P (ap (elim [ some b ↦ b | none ↦ v ]) e') h.0
    | inr miss ↦ let e' = rw miss at e in All-get P rest key a h.1 e'
  ]
