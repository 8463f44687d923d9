-- ===== src/Base/Utf8/RoundTrip.antt =====
-- Decoding gives back what was encoded.
use Prim.Native.Nat.{ℕ, suc, ◌+◌, ◌*◌, ◌/◌, ◌%◌, ◌<◌, ◌≤◌}
use mathlib.Core.Path.{◌≡◌, refl, ap, ◌∙◌}
use mathlib.Core.Logic.{◌⊎◌, inl, inr}
use mathlib.Core.Bool.{true, ◌&&◌}
use mathlib.Core.List.{[], ◌∷◌, ◌++◌}
use mathlib.Core.Option.{some}
use native.Mathlib.Omega.{arith}
use ech_rust.Base.Tests.{Bool-cases, ltb→lt, ltb, leb, ◌==◌, if◌then◌else◌}
use ech_rust.Base.Lists.{All}
use ech_rust.Base.Text.{Text, Bytes}
use ech_rust.Base.Utf8.{lead, onto, utf8_loop, from_utf8, encode_utf8, as_bytes}

-- A Unicode scalar value, as every `char` is.
abbrev pub IsScalar : ℕ → Type 0
IsScalar c = (c < 0xd800) ⊎ ((0xe000 ≤ c) × (c < 0x11_0000))

one_byte :
    (c : ℕ) (bs : Bytes) → c < 0x80 → utf8_loop 0 0 0 0 (c ∷ bs) ≡ onto c (utf8_loop 0 0 0 0 bs)
unfolding utf8_loop
one_byte c bs h = ground arith

lead_two :
    (q : ℕ)
    → 2 ≤ q
    → q < 32
    → lead (0xc0 + q) ≡ some (record { follow = 1; bits = q; least = 0x80; largest = 0xbf })
lead_two q h k = ground arith

lead_three :
    (q : ℕ)
    → q < 16
    → lead (0xe0 + q)
      ≡ some (record {
        follow = 2;
        bits = q;
        least = if q == 0 then 0xa0 else 0x80;
        largest = if q == 0xd then 0x9f else 0xbf;
      })
lead_three q h = ground arith

lead_four :
    (q : ℕ)
    → q < 5
    → lead (0xf0 + q)
      ≡ some (record {
        follow = 3;
        bits = q;
        least = if q == 0 then 0x90 else 0x80;
        largest = if q == 4 then 0x8f else 0xbf;
      })
lead_four q h = ground arith

first_byte :
    (b n bits least largest : ℕ) (bs : Bytes)
    → lead b ≡ some (record { follow = suc n; bits = bits; least = least; largest = largest })
    → utf8_loop 0 0 0 0 (b ∷ bs) ≡ utf8_loop (suc n) bits least largest bs
unfolding utf8_loop
first_byte b n bits least largest bs e = rw (e, utf8_loop) refl

within : (a b c : ℕ) → a ≤ b → b ≤ c → leb a b && leb b c ≡ true
within a b c h k = ground arith

next_byte :
    (n acc least largest r : ℕ) (bs : Bytes)
    → least ≤ 0x80 + r
    → 0x80 + r ≤ largest
    → utf8_loop (suc (suc n)) acc least largest ((0x80 + r) ∷ bs)
      ≡ utf8_loop (suc n) (acc * 64 + r) 0x80 0xbf bs
unfolding utf8_loop
next_byte n acc least largest r bs h k =
    rw (within least (0x80 + r) largest h k, utf8_loop)
      (ap (λ x. utf8_loop (suc n) (acc * 64 + x) 0x80 0xbf bs) (omega arith))

last_byte :
    (acc least largest r : ℕ) (bs : Bytes)
    → least ≤ 0x80 + r
    → 0x80 + r ≤ largest
    → utf8_loop 1 acc least largest ((0x80 + r) ∷ bs) ≡ onto (acc * 64 + r) (utf8_loop 0 0 0 0 bs)
unfolding utf8_loop
last_byte acc least largest r bs h k =
    rw (within least (0x80 + r) largest h k, utf8_loop)
      (ap (λ x. onto (acc * 64 + x) (utf8_loop 0 0 0 0 bs)) (omega arith))

two_bytes :
    (c : ℕ) (bs : Bytes)
    → 0x80 ≤ c
    → c < 0x800
    → utf8_loop 0 0 0 0 ((0xc0 + c / 64) ∷ (0x80 + c % 64) ∷ bs) ≡ onto c (utf8_loop 0 0 0 0 bs)
unfolding utf8_loop
two_bytes c bs h k =
    first_byte (0xc0 + c / 64) 0 (c / 64) 0x80 0xbf ((0x80 + c % 64) ∷ bs)
      (lead_two (c / 64) (omega arith) (omega arith))
    ∙ last_byte (c / 64) 0x80 0xbf (c % 64) bs (omega arith) (omega arith)
    ∙ ap (λ x. onto x (utf8_loop 0 0 0 0 bs)) (omega arith)

three_bytes :
    (c : ℕ) (bs : Bytes)
    → 0x800 ≤ c
    → c < 0x1_0000
    → IsScalar c
    → utf8_loop 0 0 0 0 ((0xe0 + c / 4096) ∷ (0x80 + c / 64 % 64) ∷ (0x80 + c % 64) ∷ bs)
      ≡ onto c (utf8_loop 0 0 0 0 bs)
unfolding utf8_loop
three_bytes c bs h k s =
    first_byte (0xe0 + c / 4096) 1 (c / 4096) (if c / 4096 == 0 then 0xa0 else 0x80)
      (if c / 4096 == 0xd then 0x9f else 0xbf) ((0x80 + c / 64 % 64) ∷ (0x80 + c % 64) ∷ bs)
      (lead_three (c / 4096) (omega arith))
    ∙ next_byte 0 (c / 4096) (if c / 4096 == 0 then 0xa0 else 0x80)
        (if c / 4096 == 0xd then 0x9f else 0xbf) (c / 64 % 64) ((0x80 + c % 64) ∷ bs) (ground arith)
        (ground arith)
    ∙ last_byte (c / 4096 * 64 + c / 64 % 64) 0x80 0xbf (c % 64) bs (omega arith) (omega arith)
    ∙ ap (λ x. onto x (utf8_loop 0 0 0 0 bs)) (omega arith)

four_bytes :
    (c : ℕ) (bs : Bytes)
    → 0x1_0000 ≤ c
    → c < 0x11_0000
    → utf8_loop 0 0 0 0 (
        (0xf0 + c / 0x4_0000)
        ∷ (0x80 + c / 4096 % 64)
        ∷ (0x80 + c / 64 % 64)
        ∷ (0x80 + c % 64)
        ∷ bs)
      ≡ onto c (utf8_loop 0 0 0 0 bs)
unfolding utf8_loop
four_bytes c bs h k =
    first_byte (0xf0 + c / 0x4_0000) 2 (c / 0x4_0000) (if c / 0x4_0000 == 0 then 0x90 else 0x80)
      (if c / 0x4_0000 == 4 then 0x8f else 0xbf)
      ((0x80 + c / 4096 % 64) ∷ (0x80 + c / 64 % 64) ∷ (0x80 + c % 64) ∷ bs)
      (lead_four (c / 0x4_0000) (omega arith))
    ∙ next_byte 1 (c / 0x4_0000) (if c / 0x4_0000 == 0 then 0x90 else 0x80)
        (if c / 0x4_0000 == 4 then 0x8f else 0xbf) (c / 4096 % 64)
        ((0x80 + c / 64 % 64) ∷ (0x80 + c % 64) ∷ bs) (ground arith) (ground arith)
    ∙ next_byte 0 (c / 0x4_0000 * 64 + c / 4096 % 64) 0x80 0xbf (c / 64 % 64) ((0x80 + c % 64) ∷ bs)
        (omega arith) (omega arith)
    ∙ last_byte ((c / 0x4_0000 * 64 + c / 4096 % 64) * 64 + c / 64 % 64) 0x80 0xbf (c % 64) bs
        (omega arith) (omega arith)
    ∙ ap (λ x. onto x (utf8_loop 0 0 0 0 bs)) (omega arith)

encode_utf8-loop :
    (c : ℕ) (bs : Bytes)
    → IsScalar c
    → utf8_loop 0 0 0 0 (encode_utf8 c ++ bs) ≡ onto c (utf8_loop 0 0 0 0 bs)
unfolding encode_utf8
encode_utf8-loop c bs s = elim (Bool-cases (ltb c 0x80)) [
  | inl a ↦ rw a (one_byte c bs (ltb→lt _ _ a))
  | inr a ↦ elim (Bool-cases (ltb c 0x800)) [
    | inl b ↦ rw (a, b) (two_bytes c bs (ground arith) (ltb→lt _ _ b))
    | inr b ↦ elim (Bool-cases (ltb c 0x1_0000)) [
      | inl d ↦ rw (a, b, d) (three_bytes c bs (ground arith) (ltb→lt _ _ d) s)
      | inr d ↦ rw (a, b, d) (four_bytes c bs (ground arith) (ground arith))
    ]
  ]
]

-- Every text comes back from its bytes.
pub from_utf8-as_bytes : (t : Text) → All IsScalar t → from_utf8 (as_bytes t) ≡ some t
unfolding from_utf8 as_bytes utf8_loop
from_utf8-as_bytes [] h = refl
from_utf8-as_bytes (c ∷ cs) h =
    encode_utf8-loop c (as_bytes cs) h.0 ∙ ap (onto c) (from_utf8-as_bytes cs h.1)
