-- ===== src/Base/Bits.antt =====
-- `|` of a multiple of 2 ^ k and a number below it is their sum.
use Prim.Native.Nat.{
  ℕ, zero, suc, ◌+◌, ◌*◌, ◌/◌, ◌%◌, ◌^◌, ◌≤◌, ◌<◌, min, max, bit_or, bit_and, digits,
  bit_or-bitwise, bit_and-bitwise,
}
use mathlib.Core.Path.{◌≡◌, refl, ap}
use native.Mathlib.Nat.{pow-suc}
use native.Mathlib.Omega.{arith}

-- The digits of `a | b`, on a count of digits that is at least `a`.
abbrev or_digits : ℕ → ℕ → ℕ → ℕ
or_digits n a b = digits (λ y. y) max n a b

or_digits_enough : (n m a b : ℕ) → a ≤ n → a ≤ m → or_digits n a b ≡ or_digits m a b
or_digits_enough zero zero a b p q = refl
or_digits_enough zero (suc m) zero b p q = refl
or_digits_enough zero (suc m) (suc a) b p q = absurd (omega arith)
or_digits_enough (suc n) zero zero b p q = refl
or_digits_enough (suc n) zero (suc a) b p q = absurd (omega arith)
or_digits_enough (suc n) (suc m) zero b p q = refl
or_digits_enough (suc n) (suc m) (suc a) b p q =
    omega (arith, or_digits_enough n m (suc a / 2) (b / 2) (omega arith) (omega arith))

or_digit : (a b : ℕ) → bit_or a b ≡ bit_or (a / 2) (b / 2) * 2 + max (a % 2) (b % 2)
or_digit zero b = omega (arith, bit_or-bitwise 0 b, bit_or-bitwise 0 (b / 2))
or_digit (suc a) b = omega (
  arith,
  bit_or-bitwise (suc a) b,
  bit_or-bitwise (suc a / 2) (b / 2),
  or_digits_enough a (suc a / 2) (suc a / 2) (b / 2) (omega arith) (omega arith),
)

bit_or-zero : (n a : ℕ) → a ≤ n → bit_or a 0 ≡ a
bit_or-zero n zero h = refl
bit_or-zero zero (suc a) h = absurd (omega arith)
bit_or-zero (suc n) (suc a) h =
    omega (arith, or_digit (suc a) 0, bit_or-zero n (suc a / 2) (omega arith))

double : (q k : ℕ) → q * 2 ^ suc k ≡ 2 * (q * 2 ^ k)
double q k = omega (arith, ap (λ (t : ℕ). q * t) (pow-suc 2 k))

pub bit_or_disjoint : (k q r : ℕ) → r < 2 ^ k → bit_or (q * 2 ^ k) r ≡ q * 2 ^ k + r
bit_or_disjoint zero q r h = ground (arith, bit_or-zero q q)
bit_or_disjoint (suc k) q r h =
    ground (arith, or_digit (q * 2 ^ suc k) r, double q k, pow-suc 2 k, bit_or_disjoint k q (r / 2))

-- The same for `&`.
abbrev and_digits : ℕ → ℕ → ℕ → ℕ
and_digits n a b = digits (λ y. 0) min n a b

and_digits_enough : (n m a b : ℕ) → a ≤ n → a ≤ m → and_digits n a b ≡ and_digits m a b
and_digits_enough zero zero a b p q = refl
and_digits_enough zero (suc m) zero b p q = refl
and_digits_enough zero (suc m) (suc a) b p q = absurd (omega arith)
and_digits_enough (suc n) zero zero b p q = refl
and_digits_enough (suc n) zero (suc a) b p q = absurd (omega arith)
and_digits_enough (suc n) (suc m) zero b p q = refl
and_digits_enough (suc n) (suc m) (suc a) b p q =
    omega (arith, and_digits_enough n m (suc a / 2) (b / 2) (omega arith) (omega arith))

and_digit : (a b : ℕ) → bit_and a b ≡ bit_and (a / 2) (b / 2) * 2 + min (a % 2) (b % 2)
and_digit zero b = omega (arith, bit_and-bitwise 0 b, bit_and-bitwise 0 (b / 2))
and_digit (suc a) b = omega (
  arith,
  bit_and-bitwise (suc a) b,
  bit_and-bitwise (suc a / 2) (b / 2),
  and_digits_enough a (suc a / 2) (suc a / 2) (b / 2) (omega arith) (omega arith),
)

bit_and-zero : (n a : ℕ) → a ≤ n → bit_and a 0 ≡ 0
bit_and-zero n zero h = refl
bit_and-zero zero (suc a) h = absurd (omega arith)
bit_and-zero (suc n) (suc a) h =
    omega (arith, and_digit (suc a) 0, bit_and-zero n (suc a / 2) (omega arith))

bit_and-one : (a : ℕ) → bit_and a 1 ≡ a % 2
bit_and-one a = omega (arith, and_digit a 1, bit_and-zero (a / 2) (a / 2) (omega arith))

bit_and-three : (a : ℕ) → bit_and a 3 ≡ a % 4
bit_and-three a = omega (arith, and_digit a 3, bit_and-one (a / 2))

-- Four low bits, two high bits of a byte, and the highest bit of a 16-bit word.
pub bit_and-0x0f : (a : ℕ) → bit_and a 0x000f ≡ a % 16
bit_and-0x0f a = omega (arith, and_digit a 15, and_digit (a / 2) 7, bit_and-three (a / 2 / 2))

and_even : (a k : ℕ) → bit_and a (k * 2) ≡ bit_and (a / 2) k * 2
and_even a k = ground (arith, and_digit a (k * 2))

and_sixteen : (a k : ℕ) → bit_and a (k * 16) ≡ bit_and (a / 16) k * 16
and_sixteen a k = ground (
  arith,
  and_even a (k * 8),
  and_even (a / 2) (k * 4),
  and_even (a / 4) (k * 2),
  and_even (a / 8) k,
)

pub bit_and-0xc0 : (a : ℕ) → bit_and a 0xc0 ≡ a / 64 % 4 * 64
bit_and-0xc0 a =
    ground
      (arith, and_sixteen a 12, and_even (a / 16) 6, and_even (a / 32) 3, bit_and-three (a / 64))

pub bit_and-0x8000 : (a : ℕ) → bit_and a 0x8000 ≡ a / 0x8000 % 2 * 0x8000
bit_and-0x8000 a = ground (
  arith,
  and_sixteen a 0x800,
  and_sixteen (a / 16) 0x80,
  and_sixteen (a / 256) 8,
  and_even (a / 0x1000) 4,
  and_even (a / 0x2000) 2,
  and_even (a / 0x4000) 1,
  bit_and-one (a / 0x8000),
)

bit_and-0x7f : (a : ℕ) → bit_and a 0x7f ≡ a % 128
bit_and-0x7f a =
    ground (
      arith,
      and_digit a 0x7f,
      and_digit (a / 2) 0x3f,
      and_digit (a / 4) 0x1f,
      bit_and-0x0f (a / 8),
    )

-- The prefixes of /7 and /10 in a 16-bit segment.
pub bit_and-0xfe00 : (a : ℕ) → bit_and a 0xfe00 ≡ a / 512 % 128 * 512
bit_and-0xfe00 a = ground (
  arith,
  and_sixteen a 0xfe0,
  and_sixteen (a / 16) 0xfe,
  and_even (a / 256) 0x7f,
  bit_and-0x7f (a / 512),
)

pub bit_and-0xffc0 : (a : ℕ) → bit_and a 0xffc0 ≡ a / 64 % 1024 * 64
bit_and-0xffc0 a = ground (
  arith,
  and_sixteen a 0xffc,
  and_even (a / 16) 0x7fe,
  and_even (a / 32) 0x3ff,
  and_digit (a / 64) 0x3ff,
  and_digit (a / 128) 0x1ff,
  and_digit (a / 256) 0xff,
  bit_and-0x7f (a / 512),
)
