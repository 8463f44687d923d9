-- ===== src/Base/Utf8/Scalars.antt =====
-- What decoding gives are characters.
use Prim.Native.Nat.{ℕ, zero, suc, ◌+◌, ◌-◌, ◌*◌, ◌≤◌}
use mathlib.Core.Path.{subst, ◌≡◌, refl}
use mathlib.Core.Logic.{inl, inr}
use mathlib.Core.Bool.{◌&&◌}
use mathlib.Core.List.{[], ◌∷◌}
use mathlib.Core.Option.{Option, none, some}
use native.Mathlib.Omega.{arith}
use ech_rust.Base.Tests.{Bool-cases, ltb, leb, ◌==◌, if◌then◌else◌}
use ech_rust.Base.Lists.{All}
use ech_rust.Base.Text.{Text, Bytes}
use ech_rust.Base.Utf8.{Lead, lead, onto, utf8_loop, from_utf8}
use ech_rust.Base.Utf8.RoundTrip.{IsScalar}

-- Whatever bytes are let through make a character.
Fits : ℕ → ℕ → ℕ → ℕ → Type 0
Fits zero acc least largest = Unit
Fits (suc zero) acc least largest =
    (b : ℕ) → least ≤ b → b ≤ largest → IsScalar (acc * 64 + (b - 0x80))
Fits (suc (suc n)) acc least largest =
    (b : ℕ) → least ≤ b → b ≤ largest → Fits (suc n) (acc * 64 + (b - 0x80)) 0x80 0xbf

abbrev AllScalar : Option Text → Type 0
AllScalar none = Unit
AllScalar (some cs) = All IsScalar cs

LeadFits : Option Lead → Type 0
LeadFits none = Unit
LeadFits (some l) = (l.follow ≡ 0 → IsScalar l.bits) × Fits l.follow l.bits l.least l.largest

one_follows : (a : ℕ) → 0xc2 ≤ a → a ≤ 0xdf → Fits 1 (a - 0xc0) 0x80 0xbf
unfolding Fits
one_follows a h k b l m = inl (omega arith)

two_follow :
    (a : ℕ)
    → 0xe0 ≤ a
    → a ≤ 0xef
    → Fits 2 (a - 0xe0) (if a == 0xe0 then 0xa0 else 0x80) (if a == 0xed then 0x9f else 0xbf)
unfolding Fits
two_follow a h k b l m c l' m' = ground arith

three_follow :
    (a : ℕ)
    → 0xf0 ≤ a
    → a ≤ 0xf4
    → Fits 3 (a - 0xf0) (if a == 0xf0 then 0x90 else 0x80) (if a == 0xf4 then 0x8f else 0xbf)
unfolding Fits
three_follow a h k b l m c l' m' d l'' m'' = inr (ground arith, ground arith)

lead-Fits : (b : ℕ) → LeadFits (lead b)
unfolding LeadFits Fits
lead-Fits b = elim (Bool-cases (ltb b 0x80)) [
  | inl one ↦ rw one ((λ e. inl (ground arith)), tt)
  | inr more ↦ elim (Bool-cases (leb 0xc2 b && leb b 0xdf)) [
    | inl two ↦
        rw (more, two) ((λ e. absurd (omega arith)), one_follows b (ground arith) (ground arith))
    | inr above ↦ elim (Bool-cases (leb 0xe0 b && leb b 0xef)) [
      | inl three ↦
          rw (more, above, three)
            ((λ e. absurd (omega arith)), two_follow b (ground arith) (ground arith))
      | inr higher ↦ elim (Bool-cases (leb 0xf0 b && leb b 0xf4)) [
        | inl four ↦
            rw (more, above, higher, four)
              ((λ e. absurd (omega arith)), three_follow b (ground arith) (ground arith))
        | inr none_left ↦ rw (more, above, higher, none_left) tt
      ]
    ]
  ]
]

onto-AllScalar : (c : ℕ) (o : Option Text) → IsScalar c → AllScalar o → AllScalar (onto c o)
onto-AllScalar c none h k = tt
onto-AllScalar c (some cs) h k = (h, k)

-- What a leading byte gives, where what follows it gives characters.
after_lead :
    (o : Option Lead) (bs : Bytes)
    → LeadFits o
    → ((n acc least largest : ℕ)
        → Fits n acc least largest
        → AllScalar (utf8_loop n acc least largest bs))
    → AllScalar (elim o [
      | none ↦ none
      | some l ↦ elim l.follow [
        | zero ↦ onto l.bits (utf8_loop zero 0 0 0 bs)
        | suc n ↦ utf8_loop (suc n) l.bits l.least l.largest bs
      ]
    ])
unfolding LeadFits Fits
after_lead none bs f rest = tt
after_lead (some l) bs f rest = go l.follow refl
  where
    go :
        (n : ℕ)
        → l.follow ≡ n
        → AllScalar (elim n [
          | zero ↦ onto l.bits (utf8_loop zero 0 0 0 bs)
          | suc m ↦ utf8_loop (suc m) l.bits l.least l.largest bs
        ])
    go zero e = onto-AllScalar l.bits (utf8_loop zero 0 0 0 bs) (f.0 e) (rest zero 0 0 0 tt)
    go (suc m) e =
        rest (suc m) l.bits l.least l.largest (subst (λ n. Fits n l.bits l.least l.largest) e f.1)

utf8_loop-AllScalar :
    (n acc least largest : ℕ) (bs : Bytes)
    → Fits n acc least largest
    → AllScalar (utf8_loop n acc least largest bs)
unfolding utf8_loop Fits
utf8_loop-AllScalar zero acc least largest [] h = tt
utf8_loop-AllScalar (suc n) acc least largest [] h = tt
utf8_loop-AllScalar zero acc least largest (b ∷ bs) h =
    after_lead (lead b) bs (lead-Fits b)
      (λ n acc' least' largest' f. utf8_loop-AllScalar n acc' least' largest' bs f)
utf8_loop-AllScalar (suc zero) acc least largest (b ∷ bs) h =
    elim (Bool-cases (leb least b && leb b largest)) [
      | inr outside ↦ rw (outside, utf8_loop) tt
      | inl inside ↦
          rw (inside, utf8_loop)
            (onto-AllScalar (acc * 64 + (b - 0x80)) (utf8_loop zero 0 0 0 bs)
              (h b (ground arith) (ground arith)) (utf8_loop-AllScalar zero 0 0 0 bs tt))
    ]
utf8_loop-AllScalar (suc (suc n)) acc least largest (b ∷ bs) h =
    elim (Bool-cases (leb least b && leb b largest)) [
      | inr outside ↦ rw (outside, utf8_loop) tt
      | inl inside ↦
          rw (inside, utf8_loop)
            (utf8_loop-AllScalar (suc n) (acc * 64 + (b - 0x80)) 0x80 0xbf bs
              (h b (ground arith) (ground arith)))
    ]

pub from_utf8-All : (bytes : Bytes) (cs : Text) → from_utf8 bytes ≡ some cs → All IsScalar cs
unfolding from_utf8 Fits
from_utf8-All bytes cs e = subst AllScalar e (utf8_loop-AllScalar 0 0 0 0 bytes tt)
