-- ===== src/ChinaIp/Search.antt =====
-- The binary search over a separated table finds the cell that decides.
use ech_rust.Base.{
  ℕ, zero, suc, ◌+◌, ◌-◌, ◌/◌, ◌≤◌, ◌<◌, ◌≡◌, refl, ◌∙◌, inl, inr, List, [], ◌∷◌, Option, some,
  arith, ltb, ltb→lt, if◌then◌else◌, length, get_elem?, Bool-cases,
}
use native.Mathlib.Decide.{dec_lt}
use ech_rust.ChinaIp.{
  Range, search_loop, search_result, binary_search_by_start, contains_at, contains_range,
}
use ech_rust.ChinaIp.Ranges.{covers, IsSeparated, lo-le-start, covers-at, covers-before}

pub get_elem?-total {ℓ} :
    {A : Type ℓ} (xs : List A) (i : ℕ) → i < length xs → (a : A) × (get_elem? xs i ≡ some a)
get_elem?-total [] i h = absurd (omega arith)
get_elem?-total (x ∷ xs) zero h = (x, refl)
get_elem?-total (x ∷ xs) (suc i) h = get_elem?-total xs i (omega arith)

get_elem?-past {ℓ} :
    {A : Type ℓ} (xs : List A) (i : ℕ) {a : A} → length xs ≤ i → get_elem? xs i ≡ some a → ⊥
get_elem?-past [] i h e = cc
get_elem?-past (x ∷ xs) zero h e = omega arith
get_elem?-past (x ∷ xs) (suc i) h e = get_elem?-past xs i (omega arith) e

starts-increase :
    (lo i j : ℕ) (rs : List Range) {r q : Range}
    → IsSeparated lo rs
    → i < j
    → get_elem? rs i ≡ some r
    → get_elem? rs j ≡ some q
    → r.start < q.start
starts-increase lo i j [] s h e f = cc
starts-increase lo i zero (x ∷ rs) s h e f = absurd (omega arith)
starts-increase lo zero (suc j) (x ∷ rs) s h e f =
    ground (arith, lo-le-start (x.end + 2) j rs s.2 f)
starts-increase lo (suc i) (suc j) (x ∷ rs) s h e f =
    starts-increase (x.end + 2) i j rs s.2 (omega arith) e f

-- The loop's invariant: the cells below `base` start at or below the key, those from
-- `base + size` on above it.
record Brackets (rs : List Range) (key base size : ℕ) : Type 0 where
  nonempty : 1 ≤ size
  inside : base + size ≤ length rs
  below : (r : Range) → 0 < base → get_elem? rs base ≡ some r → r.start ≤ key
  above : (j : ℕ) (r : Range) → base + size ≤ j → get_elem? rs j ≡ some r → key < r.start

start-le-end :
    (lo i : ℕ) (rs : List Range) {r : Range}
    → IsSeparated lo rs
    → get_elem? rs i ≡ some r
    → r.start ≤ r.end
start-le-end lo i [] s e = cc
start-le-end lo zero (x ∷ rs) s e = ground arith
start-le-end lo (suc i) (x ∷ rs) s e = start-le-end (x.end + 2) i rs s.2 e

-- The search ends on a cell that brackets the key.
abbrev Lands : List Range → ℕ → Option ℕ → Type 0
Lands rs key found = (base : ℕ) × (found ≡ some base) × Brackets rs key base 1

module _ (key base size : ℕ) (rs : List Range) (s : IsSeparated 0 rs)
    (b : Brackets rs key base size) {r : Range} (read : get_elem? rs (base + size / 2) ≡ some r)
    (more : 1 < size) where
  lower-Brackets : key < r.start → Brackets rs key base (size - size / 2)
  lower-Brackets h = record {
    nonempty = omega arith;
    inside = omega (arith, b.inside);
    below = b.below;
    above = λ j q le e. elim (dec_lt (base + size / 2) j) [
      | yes lt ↦ omega (arith, starts-increase 0 (base + size / 2) j rs s lt read e)
      | no ge ↦ let same : j ≡ base + size / 2 = omega arith in ground (arith, rw same at e)
    ];
  }

  upper-Brackets : r.start ≤ key → Brackets rs key (base + size / 2) (size - size / 2)
  upper-Brackets h = record {
    nonempty = omega arith;
    inside = omega (arith, b.inside);
    below = λ q pos e. ground arith;
    above = λ j q le e. b.above j q (omega arith) e;
  }

search_loop_step :
    (fuel key base size : ℕ) (rs : List Range) (r : Range)
    → 1 < size
    → get_elem? rs (base + size / 2) ≡ some r
    → search_loop (suc fuel) key rs base size
      ≡ search_loop fuel key rs
          (if ltb key r.start then base else base + size / 2)
          (size - size / 2)
unfolding search_loop
search_loop_step fuel key base size rs r more read = ground arith

search_loop-Lands :
    (fuel key base size : ℕ) (rs : List Range)
    → IsSeparated 0 rs
    → size ≤ fuel
    → Brackets rs key base size
    → Lands rs key (search_loop fuel key rs base size)
search_loop-Lands zero key base size rs s f b = absurd (omega (arith, b.nonempty))
search_loop-Lands (suc fuel) key base size rs s f b = elim (dec_lt 1 size) [
  | no stop ↦
      let e : size ≡ 1 = omega (arith, b.nonempty) in
      (base, unfold search_loop in ground arith, rw e at b)
  | yes more ↦
      let (r, read) = get_elem?-total rs (base + size / 2) (omega (arith, b.inside)) in
      let step = search_loop_step fuel key base size rs r more read in
      elim (Bool-cases (ltb key r.start)) [
        | inl under ↦
            let (i, e, l) =
              search_loop-Lands fuel key base (size - size / 2) rs s (omega arith)
                (lower-Brackets key base size rs s b read more (ltb→lt key r.start under)) in
            (i, rw under at step ∙ e, l)
        | inr over ↦
            let (i, e, l) =
              search_loop-Lands fuel key (base + size / 2) (size - size / 2) rs s (omega arith)
                (upper-Brackets key base size rs s b read more (ground arith)) in
            (i, rw over at step ∙ e, l)
      ]
]

-- What the `match` of `contains_u32` makes of the cell that the search landed on.
landed-covers :
    (key base : ℕ) (rs : List Range) {r : Range}
    → IsSeparated 0 rs
    → Brackets rs key base 1
    → get_elem? rs base ≡ some r
    → contains_at rs key (search_result key base r) ≡ some (covers rs key)
unfolding contains_at search_result
landed-covers key base [] s b e = cc
landed-covers key zero (x ∷ rs) {r} s b e = ground (
  arith,
  covers-at 0 key 0 (x ∷ rs) {r = r} s e,
  covers-before 0 key x rs s,
  λ (q : Range). b.above 1 q (omega arith),
  start-le-end 0 0 (x ∷ rs) s e,
)
landed-covers key (suc i) (x ∷ rs) {r} s b e = ground (
  arith,
  b.below r (omega arith) e,
  covers-at 0 key (suc i) (x ∷ rs) {r = r} s e,
  λ (q : Range). b.above (suc (suc i)) q (omega arith),
  start-le-end 0 (suc i) (x ∷ rs) s e,
)

-- On a separated table `contains_u32` and `contains_u128` answer, without an index panic, whether
-- some range of the table holds the address.
pub contains_range-covers :
    (rs : List Range) (ip : ℕ) → IsSeparated 0 rs → contains_range rs ip ≡ some (covers rs ip)
unfolding contains_range binary_search_by_start
contains_range-covers [] ip s = unfold contains_at in refl
contains_range-covers (x ∷ xs) ip s =
    let n = length (x ∷ xs) in
    let (base, found, b) = search_loop-Lands n ip 0 n (x ∷ xs) s (omega arith) (record {
      nonempty = omega arith;
      inside = omega arith;
      below = λ r pos e. absurd (omega arith);
      above = λ j r le e. absurd (get_elem?-past (x ∷ xs) j (omega arith) e);
    }) in
    let (r, read) = get_elem?-total (x ∷ xs) base (omega (arith, b.inside)) in
    ground (arith, landed-covers ip base (x ∷ xs) s b read)
