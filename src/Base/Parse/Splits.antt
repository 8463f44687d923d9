-- ===== src/Base/Parse/Splits.antt =====
-- What splitting a text at a character gives.
use mathlib.Core.Path.{◌≡◌, refl}
use mathlib.Core.Bool.{Bool, false}
use mathlib.Core.List.{[], ◌∷◌, ◌++◌}
use mathlib.Core.Option.{none, some}
use native.Mathlib.Omega.{arith}
use Prim.Native.Nat.{ℕ}
use ech_rust.Base.Tests.{◌==◌}
use ech_rust.Base.Lists.{any}
use ech_rust.Base.Text.{Text, split_once, rsplit_once}

-- The character stands in the text.
abbrev pub holds : ℕ → Text → Bool
holds c s = any (λ d. d == c) s

pub split_once-append :
    (sep : ℕ) (a b : Text) → holds sep a ≡ false → split_once sep (a ++ sep ∷ b) ≡ some (a, b)
unfolding split_once
split_once-append sep [] b h = ground arith
split_once-append sep (c ∷ cs) b h =
    let tail : holds sep cs ≡ false = ground arith in
    let here : (c == sep) ≡ false = ground arith in rw (split_once-append sep cs b tail, here) refl

pub rsplit_once-none : (sep : ℕ) (s : Text) → holds sep s ≡ false → rsplit_once sep s ≡ none
unfolding rsplit_once
rsplit_once-none sep [] h = refl
rsplit_once-none sep (c ∷ cs) h =
    let tail : holds sep cs ≡ false = ground arith in
    let here : (c == sep) ≡ false = ground arith in rw (rsplit_once-none sep cs tail, here) refl

pub rsplit_once-append :
    (sep : ℕ) (a b : Text) → holds sep b ≡ false → rsplit_once sep (a ++ sep ∷ b) ≡ some (a, b)
unfolding rsplit_once
rsplit_once-append sep [] b h = rw (rsplit_once-none sep b h) (ground arith)
rsplit_once-append sep (c ∷ cs) b h = rw (rsplit_once-append sep cs b h) refl
