-- ===== src/Dns/Cursor.antt =====
-- Reading at an offset, by what is left of the message from there on.
use mathlib.Core.List.{append_assoc}
use ech_rust.Base.{
  ℕ, zero, suc, ◌+◌, ◌-◌, ◌%◌, ◌^◌, ◌≤◌, ◌<◌, ◌≡◌, refl, sym, ap, ◌∙◌, [], ◌∷◌, ◌++◌, some, ok,
  arith, length, take, drop, get_elem?, length-drop, length-append, take_append, drop_append,
}
use ech_rust.Base.Text.{Bytes}
use ech_rust.Dns.{slice, be16, read_u16, read_u16_at, read_u32_at, skip_bytes}
use ech_rust.Dns.Wire.{be32}

drop-nil : (n : ℕ) → drop {A = ℕ} n [] ≡ []
drop-nil zero = refl
drop-nil (suc n) = refl

pub drop-drop : (i k : ℕ) (xs : Bytes) → drop (i + k) xs ≡ drop k (drop i xs)
drop-drop zero k xs = ground arith
drop-drop (suc i) k [] = drop-nil (suc i + k) ∙ sym (drop-nil k)
drop-drop (suc i) k (x ∷ xs) =
    let e : suc i + k ≡ suc (i + k) = omega arith in rw e (drop-drop i k xs)

-- The message from offset `o` on is `here`, and the whole of it can be addressed.
pub record At (message : Bytes) (o : ℕ) (here : Bytes) : Type 0 where
  pub inside : o ≤ length message
  pub rest_is : drop o message ≡ here
  pub fits : length message < 2 ^ 63

pub At-length :
    {message : Bytes} {o : ℕ} {here : Bytes} → At message o here → length here + o ≡ length message
At-length {message} {o} {here} a =
    omega (arith, ap length a.rest_is, length-drop o message, a.inside)

pub At-append :
    {message : Bytes} {o : ℕ} (xs ys : Bytes)
    → At message o (xs ++ ys)
    → At message (o + length xs) ys
At-append {message} {o} xs ys a = record {
  inside = omega (arith, At-length a, length-append xs ys);
  rest_is = drop-drop o (length xs) message ∙ ap (drop (length xs)) a.rest_is ∙ drop_append xs ys;
  fits = a.fits;
}

pub At-slice :
    {message : Bytes} {o : ℕ} (xs ys : Bytes)
    → At message o (xs ++ ys)
    → slice message o (o + length xs) ≡ some xs
At-slice {message} {o} xs ys a =
    let len : o + length xs - o ≡ length xs = omega arith in
    let exact = ap (take (length xs)) a.rest_is ∙ take_append xs ys in
    ground (arith, At-length a, length-append xs ys, len, exact)

get_elem?-drop : (i : ℕ) (xs : Bytes) → get_elem? xs i ≡ get_elem? (drop i xs) 0
get_elem?-drop zero xs = refl
get_elem?-drop (suc i) [] = refl
get_elem?-drop (suc i) (x ∷ xs) = get_elem?-drop i xs

pub At-byte :
    {message : Bytes} {o b : ℕ} {ys : Bytes} → At message o (b ∷ ys) → get_elem? message o ≡ some b
At-byte {message} {o} a = get_elem?-drop o message ∙ ap (λ ys. get_elem? ys 0) a.rest_is

pub read_u16-be16 :
    {message : Bytes} {o : ℕ} (n : ℕ) (ys : Bytes)
    → At message o (be16 n ++ ys)
    → read_u16 message o ≡ ok (n % 2 ^ 16)
unfolding read_u16
read_u16-be16 {message} {o} n ys a = ground (arith, At-slice (be16 n) ys a, a.inside, a.fits)

pub read_u16_at-be16 :
    {message : Bytes} {o : ℕ} (n : ℕ) (ys : Bytes)
    → At message o (be16 n ++ ys)
    → read_u16_at message o ≡ ok (n % 2 ^ 16, o + 2)
unfolding read_u16_at
read_u16_at-be16 n ys a = rw (read_u16-be16 n ys a)

pub skip_bytes-append :
    {message : Bytes} {o : ℕ} (xs ys : Bytes)
    → At message o (xs ++ ys)
    → skip_bytes message o (length xs) ≡ ok (o + length xs)
unfolding skip_bytes
skip_bytes-append xs ys a = ground (arith, a.inside, a.fits, At-length a, length-append xs ys)

pub read_u32_at-be32 :
    {message : Bytes} {o : ℕ} (n : ℕ) (ys : Bytes)
    → n < 2 ^ 32
    → At message o (be32 n ++ ys)
    → read_u32_at message o ≡ ok (n, o + 4)
unfolding read_u32_at
read_u32_at-be32 {message} {o} n ys h a = ground (arith, At-slice (be32 n) ys a, a.inside, a.fits)

pub At-assoc :
    {message : Bytes} {o : ℕ} (xs ys zs : Bytes)
    → At message o ((xs ++ ys) ++ zs)
    → At message o (xs ++ (ys ++ zs))
At-assoc xs ys zs a = record {
  inside = a.inside;
  rest_is = a.rest_is ∙ append_assoc xs ys zs;
  fits = a.fits;
}

pub At-step :
    {message : Bytes} {o : ℕ} (b : ℕ) (xs ys : Bytes)
    → At message o (b ∷ (xs ++ ys))
    → At message (o + suc (length xs)) ys
At-step b xs ys a = At-append (b ∷ xs) ys a
