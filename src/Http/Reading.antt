-- ===== src/Http/Reading.antt =====
-- How far `read_header` of client/src/ingress_http.rs reads.
use mathlib.Core.Path.{subst}
use native.Mathlib.Decide.{dec_lt}
use mathlib.Core.List.{append_assoc}
use ech_rust.Base.Parse.{ends_with}
use ech_rust.Base.Text.{Bytes}
use ech_rust.Base.{
  ℕ, zero, suc, ◌≤◌, ◌<◌, ◌≡◌, ◌≢◌, ◌↔◌, refl, sym, ap, ◌∙◌, inl, inr, true, false, List, [], ◌∷◌,
  ◌++◌, ok, err, arith, length, length-append, take, take_append, Bool-cases,
}
use ech_rust.Http.Request.{header_end}
use ech_rust.Http.{read_loop, read_header}

-- A header ends with an empty line, and no shorter part of its front does.
pub record IsHeader (h : Bytes) : Type 0 where
  pub ends : ends_with header_end h ≡ true
  pub first : (k : ℕ) → k < length h → ends_with header_end (take k h) ≡ false

-- What the loop read behind `buf`.
record Reads (n : ℕ) (buf input h rest : Bytes) : Type 0 where
  mid : Bytes
  splits : input ≡ mid ++ rest
  whole : h ≡ buf ++ mid
  bounded : length mid ≤ n
  ends : ends_with header_end h ≡ true
  first : (k : ℕ) → length buf < k → k < length h → ends_with header_end (take k h) ≡ false

take_front : {A : Type 0} (k : ℕ) (xs ys : List A) → k ≡ length xs → take k (xs ++ ys) ≡ xs
take_front k xs ys e = rw e (take_append xs ys)

-- One round of the loop.
read_loop_end :
    (n : ℕ) (buf : Bytes) (b : ℕ) (input : Bytes)
    → ends_with header_end (buf ++ b ∷ []) ≡ true
    → read_loop (suc n) buf (b ∷ input) ≡ ok (buf ++ b ∷ [], input)
unfolding read_loop
read_loop_end n buf b input e = rw (e, read_loop) refl

read_loop_more :
    (n : ℕ) (buf : Bytes) (b : ℕ) (input : Bytes)
    → ends_with header_end (buf ++ b ∷ []) ≡ false
    → read_loop (suc n) buf (b ∷ input) ≡ read_loop n (buf ++ b ∷ []) input
unfolding read_loop
read_loop_more n buf b input e = rw (e, read_loop) refl

read_loop-Reads :
    (n : ℕ) (buf input h rest : Bytes)
    → read_loop n buf input ≡ ok (h, rest)
    → Reads n buf input h rest
unfolding read_loop
read_loop-Reads zero buf input h rest e = cc
read_loop-Reads (suc n) buf [] h rest e = cc
read_loop-Reads (suc n) buf (b ∷ input) h rest e =
    elim (Bool-cases (ends_with header_end (buf ++ b ∷ []))) [
      | inl done ↦
          let e' = sym (read_loop_end n buf b input done) ∙ e in
          let here : (buf ++ b ∷ []) ≡ h = ap (elim [ ok p ↦ p.0 | err _ ↦ h ]) e' in
          let left : input ≡ rest = ap (elim [ ok p ↦ p.1 | err _ ↦ rest ]) e' in
          let size = length-append buf (b ∷ []) in
          let same_size : length (buf ++ b ∷ []) ≡ length h = ap (λ l. length l) here in
          record {
            mid = b ∷ [];
            splits = ap (◌∷◌ b) left;
            whole = sym here;
            bounded = omega arith;
            ends = subst (λ l. ends_with header_end l ≡ true) here done;
            first = λ k p q. absurd (omega arith);
          }
      | inr more ↦
          let r =
            read_loop-Reads n (buf ++ b ∷ []) input h rest
              (sym (read_loop_more n buf b input more) ∙ e) in
          let whole : h ≡ buf ++ (b ∷ r.mid) = r.whole ∙ append_assoc buf (b ∷ []) r.mid in
          record {
            mid = b ∷ r.mid;
            splits = ap (◌∷◌ b) r.splits;
            whole = whole;
            bounded = omega (arith, r.bounded);
            ends = r.ends;
            first = λ k p q. next k p q r more;
          }
    ]
  where
    next :
        (k : ℕ)
        → length buf < k
        → k < length h
        → Reads n (buf ++ b ∷ []) input h rest
        → ends_with header_end (buf ++ b ∷ []) ≡ false
        → ends_with header_end (take k h) ≡ false
    next k p q r more = elim (dec_lt (suc (length buf)) k) [
      | yes later ↦ r.first k (omega (arith, length-append buf (b ∷ []))) q
      | no now ↦ rw r.whole (
          ap (ends_with header_end)
            (take_front k (buf ++ b ∷ []) r.mid (omega (arith, length-append buf (b ∷ []))))
          ∙ more)
    ]

read_loop-finds :
    (n : ℕ) (buf mid rest : Bytes)
    → mid ≢ []
    → length mid ≤ n
    → ends_with header_end (buf ++ mid) ≡ true
    → ((k : ℕ)
        → length buf < k
        → k < length (buf ++ mid)
        → ends_with header_end (take k (buf ++ mid)) ≡ false)
    → read_loop n buf (mid ++ rest) ≡ ok (buf ++ mid, rest)
unfolding read_loop
read_loop-finds n buf [] rest some_left fits ends first = absurd (some_left refl)
read_loop-finds zero buf (b ∷ mid) rest some_left fits ends first = absurd (omega arith)
read_loop-finds (suc n) buf (b ∷ []) rest some_left fits ends first =
    read_loop_end n buf b rest ends
read_loop-finds (suc n) buf (b ∷ c ∷ cs) rest some_left fits ends first =
    let size = length-append buf (b ∷ c ∷ cs) in
    let size' = length-append buf (b ∷ []) in
    let moved : (buf ++ b ∷ []) ++ (c ∷ cs) ≡ buf ++ (b ∷ c ∷ cs) =
      append_assoc buf (b ∷ []) (c ∷ cs) in
    let front : take (suc (length buf)) (buf ++ (b ∷ c ∷ cs)) ≡ buf ++ b ∷ [] =
      rw (← moved) (take_front (suc (length buf)) (buf ++ b ∷ []) (c ∷ cs) (omega arith)) in
    let not_yet : ends_with header_end (buf ++ b ∷ []) ≡ false =
      ap (ends_with header_end) (sym front)
      ∙ first (suc (length buf)) (omega arith) (omega arith) in
    read_loop_more n buf b (c ∷ (cs ++ rest)) not_yet
    ∙ (read_loop-finds n (buf ++ b ∷ []) (c ∷ cs) rest (λ z. cc) (omega arith)
          (ap (ends_with header_end) moved ∙ ends)
          (λ k p q.
            ap (λ l. ends_with header_end (take k l)) moved
            ∙ first k (omega arith) (subst (λ l. k < length l) moved q))
        ∙ ap (λ l. ok (l, rest)) moved)

-- Reading gives back `h` and leaves `rest` exactly where the client sends `h` and then `rest`, `h` is
-- all that comes up to the first empty line, and it has 65536 bytes at most.
pub read_header-IsHeader :
    (input h rest : Bytes)
    → (read_header input ≡ ok (h, rest)) ↔ (input ≡ h ++ rest) × IsHeader h × (length h ≤ 65536)
unfolding read_header ends_with
read_header-IsHeader input h rest = (there, back)
  where
    there : read_header input ≡ ok (h, rest) → (input ≡ h ++ rest) × IsHeader h × (length h ≤ 65536)
    there e =
        let r = read_loop-Reads 65536 [] input h rest e in
        (
          r.splits ∙ ap (λ l. l ++ rest) (sym r.whole),
          record {
            ends = r.ends;
            first = elim [ zero ↦ λ p. refl | suc k ↦ λ p. r.first (suc k) (omega arith) p ];
          },
          subst (λ l. length l ≤ 65536) (sym r.whole) r.bounded,
        )

    back : (input ≡ h ++ rest) × IsHeader h × (length h ≤ 65536) → read_header input ≡ ok (h, rest)
    back (splits, is, fits) = rw splits (
        read_loop-finds 65536 [] h rest
          (λ nil. let bad = subst (λ l. ends_with header_end l ≡ true) nil is.ends in cc) fits
          is.ends (λ k p q. is.first k q))
