-- ===== src/Base/Parse.antt =====
-- The operations of `str` that the HTTP ingress parses and prints with.
pub mod Decimal
pub mod Splits
pub mod Lines
use Prim.Native.Nat.{ℕ, zero, suc, ◌+◌, ◌-◌, ◌*◌}
use mathlib.Core.Bool.{Bool, true, false, ◌&&◌}
use mathlib.Core.Option.{Option, none, some}
use mathlib.Core.List.{List, [], ◌∷◌, ◌++◌}
use ech_rust.Base.Tests.{ltb, leb, ◌==◌, if◌then◌else◌}
use ech_rust.Base.Lists.{length, take, drop}
use ech_rust.Base.Text.{Text, Bytes, same, is_some, is_ascii_digit, onto_head}

-- `str::strip_suffix` by a text, and `slice::ends_with`.
unfoldable pub strip_suffix : Text → Text → Option Text
strip_suffix suffix s =
    if leb (length suffix) (length s) && same (drop (length s - length suffix) s) suffix
    then some (take (length s - length suffix) s)
    else none

unfoldable pub ends_with : Bytes → Bytes → Bool
unfolding strip_suffix
ends_with suffix s = is_some (strip_suffix suffix s)

-- `str::split("\r\n")`
unfoldable pub split_crlf : Text → List Text
split_crlf [] = [] ∷ []
split_crlf (c ∷ []) = (c ∷ []) ∷ []
split_crlf (c ∷ d ∷ cs) = elim (c == 13 && d == 10) [
  | true ↦ [] ∷ split_crlf cs
  | false ↦ onto_head c (split_crlf (d ∷ cs))
]

-- `str::find` by a character, with the text split there: what stands before it, and the rest from
-- it on.
unfoldable pub find_split : ℕ → Text → Option (Text × Text)
find_split sep [] = none
find_split sep (c ∷ cs) =
    let rest = find_split sep cs in
    if c == sep
    then some ([], c ∷ cs)
    else elim rest [ none ↦ none | some (a, b) ↦ some (c ∷ a, b) ]

-- The digits of a `u16` after those that `acc` stands for; a value that does not fit is refused.
unfoldable pub parse_digits : ℕ → Text → Option ℕ
parse_digits acc [] = some acc
parse_digits acc (c ∷ cs) = elim (is_ascii_digit c && ltb (acc * 10 + (c - b'0')) 65536) [
  | true ↦ parse_digits (acc * 10 + (c - b'0')) cs
  | false ↦ none
]

-- `str::parse::<u16>`: digits, with a plus sign allowed in front of them.
unfoldable pub parse_u16 : Text → Option ℕ
unfolding parse_digits
parse_u16 [] = none
parse_u16 (c ∷ []) = parse_digits 0 (c ∷ [])
parse_u16 (c ∷ d ∷ cs) = if c == b'+' then parse_digits 0 (d ∷ cs) else parse_digits 0 (c ∷ d ∷ cs)
