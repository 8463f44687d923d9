-- ===== src/Base/Parse/Decimal.antt =====
-- A printed port parses back.
use Prim.Native.Nat.{ℕ, zero, suc, ◌+◌, ◌-◌, ◌*◌, ◌/◌, ◌%◌, ◌^◌, ◌<◌, ◌≤◌}
use mathlib.Core.Path.{◌≡◌, refl, ap, ◌∙◌}
use mathlib.Core.Logic.{inl, inr}
use mathlib.Core.Bool.{Bool, true, false, ◌&&◌}
use mathlib.Core.List.{List, [], ◌∷◌, ◌++◌}
use mathlib.Core.Option.{Option, none, some}
use native.Mathlib.Nat.{pow-suc}
use native.Mathlib.Omega.{arith}
use ech_rust.Base.Tests.{ltb, ltb→lt, Bool-cases}
use ech_rust.Base.Lists.{all}
use ech_rust.Base.Parse.{parse_digits, parse_u16}
use ech_rust.Base.Text.{Text, is_ascii_digit, is_empty, decimal_digits, decimal}

-- One digit more.
then_digit : Option ℕ → ℕ → Option ℕ
then_digit none c = none
then_digit (some a) c = parse_digits a (c ∷ [])

parse_digits-append :
    (acc : ℕ) (cs : Text) (c : ℕ)
    → parse_digits acc (cs ++ c ∷ []) ≡ then_digit (parse_digits acc cs) c
unfolding parse_digits then_digit
parse_digits-append acc [] c = refl
parse_digits-append acc (d ∷ cs) c =
    elim (Bool-cases (is_ascii_digit d && ltb (acc * 10 + (d - b'0')) 65536)) [
      | inl good ↦ rw (good, parse_digits) (parse_digits-append (acc * 10 + (d - b'0')) cs c)
      | inr bad ↦ rw (bad, parse_digits) refl
    ]

last_digit :
    (a r : ℕ) → r < 10 → a * 10 + r < 65536 → parse_digits a ((b'0' + r) ∷ []) ≡ some (a * 10 + r)
unfolding parse_digits
last_digit a r h k = ground arith

parse_digits-decimal_digits :
    (k n : ℕ) → n < 10 ^ k → n < 65536 → 0 < k → parse_digits 0 (decimal_digits k n) ≡ some n
unfolding decimal_digits then_digit
parse_digits-decimal_digits zero n h fits pos = absurd (omega arith)
parse_digits-decimal_digits (suc k) n h fits pos = elim (Bool-cases (ltb n 10)) [
  | inl small ↦
      rw (small, decimal_digits)
        (last_digit 0 n (ltb→lt n 10 small) (omega arith) ∙ ap some (omega arith))
  | inr large ↦
      let size = pow-suc 10 k in
      let big : 10 ≤ n = ground arith in
      rw (large, decimal_digits)
        (parse_digits-append 0 (decimal_digits k (n / 10)) (b'0' + n % 10)
          ∙ ap (λ o. then_digit o (b'0' + n % 10))
              (parse_digits-decimal_digits k (n / 10) (omega arith) (omega arith) (pos_of k h big))
          ∙ last_digit (n / 10) (n % 10) (omega arith) (omega arith)
          ∙ ap some (omega arith))
]
  where
    pos_of : (k : ℕ) → n < 10 ^ suc k → 10 ≤ n → 0 < k
    pos_of zero p q = absurd (omega (arith, pow-suc 10 0))
    pos_of (suc k) p q = omega arith

all-append {ℓ} :
    {A : Type ℓ} (p : A → Bool) (xs ys : List A) → all p (xs ++ ys) ≡ all p xs && all p ys
all-append p [] ys = refl
all-append p (x ∷ xs) ys = ground (arith, all-append p xs ys)

all-decimal_digits : (k n : ℕ) → all is_ascii_digit (decimal_digits k n) ≡ true
unfolding decimal_digits
all-decimal_digits zero n = refl
all-decimal_digits (suc k) n = elim (Bool-cases (ltb n 10)) [
  | inl small ↦ rw (small, decimal_digits) (ground arith)
  | inr large ↦
      rw (large, decimal_digits)
        (all-append is_ascii_digit (decimal_digits k (n / 10)) _
          ∙ ground (arith, all-decimal_digits k (n / 10)))
]

is_empty-append_one {ℓ} : {A : Type ℓ} (xs : List A) (x : A) → is_empty (xs ++ x ∷ []) ≡ false
is_empty-append_one [] x = refl
is_empty-append_one (y ∷ ys) x = refl

pub decimal_nonempty : (n : ℕ) → is_empty (decimal n) ≡ false
unfolding decimal decimal_digits
decimal_nonempty n = elim (Bool-cases (ltb n 10)) [
  | inl small ↦ rw (small, decimal_digits) refl
  | inr large ↦ rw (large, decimal_digits) (is_empty-append_one (decimal_digits 19 (n / 10)) _)
]

pub all-decimal : (n : ℕ) → all is_ascii_digit (decimal n) ≡ true
unfolding decimal
all-decimal n = all-decimal_digits 20 n

-- A text of digits has no plus sign in front.
parse_u16-digits :
    (s : Text) → is_empty s ≡ false → all is_ascii_digit s ≡ true → parse_u16 s ≡ parse_digits 0 s
unfolding parse_u16
parse_u16-digits [] h k = cc
parse_u16-digits (c ∷ []) h k = refl
parse_u16-digits (c ∷ d ∷ cs) h k = ground arith

pub parse_u16-decimal : (n : ℕ) → n < 65536 → parse_u16 (decimal n) ≡ some n
unfolding decimal
parse_u16-decimal n h =
    parse_u16-digits (decimal n) (decimal_nonempty n) (all-decimal n)
    ∙ parse_digits-decimal_digits 20 n (omega arith) h (omega arith)
