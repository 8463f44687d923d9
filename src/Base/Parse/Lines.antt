-- ===== src/Base/Parse/Lines.antt =====
-- Lines with CRLF between them, put together and split again.
use mathlib.Core.Path.{◌≡◌, refl, ap, ◌∙◌}
use mathlib.Core.Bool.{true, false, ◌&&◌}
use mathlib.Core.List.{List, [], ◌∷◌, ◌++◌}
use mathlib.Core.Option.{some}
use Prim.Native.Nat.{◌-◌}
use native.Mathlib.Omega.{arith}
use ech_rust.Base.Tests.{◌==◌, leb}
use ech_rust.Base.Lists.{All, length, length-append, take_append, drop_append}
use ech_rust.Base.Parse.Splits.{holds}
use ech_rust.Base.Parse.{split_crlf, strip_suffix}
use ech_rust.Base.Text.{Text, onto_head, same_refl}

abbrev pub join_crlf : Text → List Text → Text
join_crlf l [] = l
join_crlf l (m ∷ ms) = l ++ (13 ∷ 10 ∷ join_crlf m ms)

split_crlf-line : (l : Text) → holds 13 l ≡ false → split_crlf l ≡ l ∷ []
unfolding split_crlf
split_crlf-line [] h = refl
split_crlf-line (c ∷ []) h = refl
split_crlf-line (c ∷ d ∷ cs) h =
    let no : (c == 13 && d == 10) ≡ false = ground arith in
    let tail : holds 13 (d ∷ cs) ≡ false = ground arith in
    rw (no, split_crlf) (ap (onto_head c) (split_crlf-line (d ∷ cs) tail))

split_crlf-append :
    (l rest : Text) → holds 13 l ≡ false → split_crlf (l ++ (13 ∷ 10 ∷ rest)) ≡ l ∷ split_crlf rest
unfolding split_crlf
split_crlf-append [] rest h = refl
split_crlf-append (c ∷ []) rest h =
    let no : (c == 13 && 13 == 10) ≡ false = ground arith in rw (no, split_crlf) refl
split_crlf-append (c ∷ d ∷ cs) rest h =
    let no : (c == 13 && d == 10) ≡ false = ground arith in
    let tail : holds 13 (d ∷ cs) ≡ false = ground arith in
    rw (no, split_crlf) (ap (onto_head c) (split_crlf-append (d ∷ cs) rest tail))

pub split_crlf-join :
    (l : Text) (ls : List Text)
    → holds 13 l ≡ false
    → All (λ m. holds 13 m ≡ false) ls
    → split_crlf (join_crlf l ls) ≡ l ∷ ls
split_crlf-join l [] h k = split_crlf-line l h
split_crlf-join l (m ∷ ms) h k =
    split_crlf-append l (join_crlf m ms) h ∙ ap (◌∷◌ l) (split_crlf-join m ms k.0 k.1)

pub strip_suffix-append : (s suffix : Text) → strip_suffix suffix (s ++ suffix) ≡ some s
unfolding strip_suffix
strip_suffix-append s suffix =
    let size = length-append s suffix in
    let cut : length (s ++ suffix) - length suffix ≡ length s = omega arith in
    let fits : leb (length suffix) (length (s ++ suffix)) ≡ true = ground arith in
    rw (fits, cut, drop_append s suffix, same_refl suffix, take_append s suffix) refl
