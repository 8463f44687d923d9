-- ===== src/Base/Utf8.antt =====
-- `String::from_utf8`.
pub mod RoundTrip
pub mod Scalars
use Prim.Native.Nat.{ℕ, zero, suc, ◌+◌, ◌-◌, ◌*◌, ◌/◌, ◌%◌}
use mathlib.Core.Bool.{true, false, ◌&&◌}
use mathlib.Core.List.{[], ◌∷◌, ◌++◌}
use mathlib.Core.Option.{Option, none, some}
use ech_rust.Base.Tests.{ltb, leb, ◌==◌, if◌then◌else◌}
use ech_rust.Base.Text.{Text, Bytes}

-- What a leading byte asks for: how many bytes follow, what it holds of the character, and the
-- least and the largest byte that may come next.
pub record Lead : Type 0 where
  pub follow : ℕ
  pub bits : ℕ
  pub least : ℕ
  pub largest : ℕ

abbrev pub lead : ℕ → Option Lead
lead b =
    if ltb b 0x80
    then some (record { follow = 0; bits = b; least = 0; largest = 0 })
    else if leb 0xc2 b && leb b 0xdf
    then some (record { follow = 1; bits = b - 0xc0; least = 0x80; largest = 0xbf })
    else if leb 0xe0 b && leb b 0xef
    then some (record {
      follow = 2;
      bits = b - 0xe0;
      least = if b == 0xe0 then 0xa0 else 0x80;
      largest = if b == 0xed then 0x9f else 0xbf;
    })
    else if leb 0xf0 b && leb b 0xf4
    then some (record {
      follow = 3;
      bits = b - 0xf0;
      least = if b == 0xf0 then 0x90 else 0x80;
      largest = if b == 0xf4 then 0x8f else 0xbf;
    })
    else none

abbrev pub onto : ℕ → Option Text → Option Text
onto c none = none
onto c (some cs) = some (c ∷ cs)

-- `n` bytes of the character with the bits `acc` are still to come.
pub utf8_loop : ℕ → ℕ → ℕ → ℕ → Bytes → Option Text
utf8_loop zero acc least largest [] = some []
utf8_loop (suc n) acc least largest [] = none
utf8_loop zero acc least largest (b ∷ bs) = elim (lead b) [
  | none ↦ none
  | some l ↦ elim l.follow [
    | zero ↦ onto l.bits (utf8_loop zero 0 0 0 bs)
    | suc n ↦ utf8_loop (suc n) l.bits l.least l.largest bs
  ]
]
utf8_loop (suc zero) acc least largest (b ∷ bs) = elim (leb least b && leb b largest) [
  | false ↦ none
  | true ↦ onto (acc * 64 + (b - 0x80)) (utf8_loop zero 0 0 0 bs)
]
utf8_loop (suc (suc n)) acc least largest (b ∷ bs) = elim (leb least b && leb b largest) [
  | false ↦ none
  | true ↦ utf8_loop (suc n) (acc * 64 + (b - 0x80)) 0x80 0xbf bs
]

unfoldable pub from_utf8 : Bytes → Option Text
unfolding utf8_loop
from_utf8 bytes = utf8_loop 0 0 0 0 bytes

-- `char::encode_utf8`, and `str::as_bytes`.
unfoldable pub encode_utf8 : ℕ → Bytes
encode_utf8 c =
    if ltb c 0x80
    then c ∷ []
    else if ltb c 0x800
    then (0xc0 + c / 64) ∷ (0x80 + c % 64) ∷ []
    else if ltb c 0x1_0000
    then (0xe0 + c / 4096) ∷ (0x80 + c / 64 % 64) ∷ (0x80 + c % 64) ∷ []
    else (0xf0 + c / 0x4_0000)
      ∷ (0x80 + c / 4096 % 64)
      ∷ (0x80 + c / 64 % 64)
      ∷ (0x80 + c % 64)
      ∷ []

unfoldable pub as_bytes : Text → Bytes
unfolding encode_utf8
as_bytes [] = []
as_bytes (c ∷ cs) = encode_utf8 c ++ as_bytes cs
