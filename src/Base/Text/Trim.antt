-- ===== src/Base/Text/Trim.antt =====
-- White space around and between words.
use mathlib.Core.Path.{◌≡◌, refl}
use mathlib.Core.Bool.{false, ◌&&◌}
use mathlib.Core.List.{List, [], ◌∷◌, ◌++◌}
use native.Mathlib.Omega.{arith}
use ech_rust.Base.Tests.{◌==◌, if◌then◌else◌}
use ech_rust.Base.Lists.{any}
use ech_rust.Base.Text.{
  Text, is_empty, is_whitespace, trim_start, trim_end, trim, split_whitespace_all, drop_empty,
  split_whitespace,
}

pub trim-space : (s : Text) → trim (32 ∷ s) ≡ trim s
unfolding trim trim_end trim_start is_whitespace
trim-space s = go (trim_end s)
  where
    go :
        (rest : Text)
        → trim_start (if is_whitespace 32 && is_empty rest then [] else 32 ∷ rest) ≡ trim_start rest
    go [] = refl
    go (c ∷ cs) = refl

-- A word holds no white space and is not empty.
abbrev pub IsWord : Text → Type 0
IsWord t = (any is_whitespace t ≡ false) × (is_empty t ≡ false)

split_all-word : (t : Text) → any is_whitespace t ≡ false → split_whitespace_all t ≡ t ∷ []
unfolding split_whitespace_all
split_all-word [] h = refl
split_all-word (c ∷ cs) h =
    let here : is_whitespace c ≡ false = ground arith in
    let tail : any is_whitespace cs ≡ false = ground arith in rw (split_all-word cs tail, here) refl

split_all-append :
    (t rest : Text)
    → any is_whitespace t ≡ false
    → split_whitespace_all (t ++ (32 ∷ rest)) ≡ t ∷ split_whitespace_all rest
unfolding split_whitespace_all
split_all-append [] rest h = refl
split_all-append (c ∷ cs) rest h =
    let here : is_whitespace c ≡ false = ground arith in
    let tail : any is_whitespace cs ≡ false = ground arith in
    rw (split_all-append cs rest tail, here) refl

drop_empty-word :
    (t : Text) (ps : List Text) → is_empty t ≡ false → drop_empty (t ∷ ps) ≡ t ∷ drop_empty ps
drop_empty-word [] ps h = cc
drop_empty-word (c ∷ cs) ps h = refl

-- Three words with a space between each two are split into these.
pub split_whitespace-words :
    (a b c : Text)
    → IsWord a
    → IsWord b
    → IsWord c
    → split_whitespace (a ++ (32 ∷ (b ++ (32 ∷ c)))) ≡ a ∷ b ∷ c ∷ []
unfolding split_whitespace
split_whitespace-words a b c (a1, a2) (b1, b2) (c1, c2) =
    rw
      (
        split_all-append a (b ++ (32 ∷ c)) a1,
        split_all-append b c b1,
        split_all-word c c1,
        drop_empty-word a (b ∷ c ∷ []) a2,
        drop_empty-word b (c ∷ []) b2,
        drop_empty-word c [] c2,
      )
      refl

-- A carriage return is white space.
pub word-no_cr : (t : Text) → any is_whitespace t ≡ false → any (λ c. c == 13) t ≡ false
unfolding is_whitespace
word-no_cr [] h = refl
word-no_cr (c ∷ cs) h =
    let tail : any is_whitespace cs ≡ false = ground arith in ground (arith, word-no_cr cs tail)
