-- ===== src/ChinaIp/Merge.antt =====
-- Merging gives a separated table that holds the same addresses.
use ech_rust.Base.{ℕ, ◌+◌, ◌≤◌, ◌≡◌, refl, ◌∙◌, ◌||◌, List, [], ◌∷◌, max, arith, All}
use ech_rust.ChinaIp.{Range, insert_by_start, sort_by_start, merge_loop, merge_sorted, merge_ranges}
use ech_rust.ChinaIp.Ranges.{within, covers, IsValid, IsSorted, IsSeparated}

insert_by_start-covers :
    (ip : ℕ) (r : Range) (rs : List Range)
    → covers (insert_by_start r rs) ip ≡ within ip r || covers rs ip
unfolding insert_by_start
insert_by_start-covers ip r [] = refl
insert_by_start-covers ip r (x ∷ rs) = ground (arith, insert_by_start-covers ip r rs)

insert_by_start-All :
    (limit : ℕ) (r : Range) (rs : List Range)
    → IsValid limit r
    → All (IsValid limit) rs
    → All (IsValid limit) (insert_by_start r rs)
unfolding insert_by_start
insert_by_start-All limit r [] h a = (h, tt)
insert_by_start-All limit r (x ∷ rs) h a = ground (arith, insert_by_start-All limit r rs h a.1)

insert_by_start-IsSorted :
    (lo : ℕ) (r : Range) (rs : List Range)
    → lo ≤ r.start
    → IsSorted lo rs
    → IsSorted lo (insert_by_start r rs)
unfolding insert_by_start
insert_by_start-IsSorted lo r [] h s = (h, tt)
insert_by_start-IsSorted lo r (x ∷ rs) h s = ground (arith, insert_by_start-IsSorted x.start r rs)

sort_by_start-covers : (ip : ℕ) (rs : List Range) → covers (sort_by_start rs) ip ≡ covers rs ip
unfolding sort_by_start
sort_by_start-covers ip [] = refl
sort_by_start-covers ip (r ∷ rs) =
    ground (arith, insert_by_start-covers ip r (sort_by_start rs), sort_by_start-covers ip rs)

sort_by_start-All :
    (limit : ℕ) (rs : List Range) → All (IsValid limit) rs → All (IsValid limit) (sort_by_start rs)
unfolding sort_by_start
sort_by_start-All limit [] a = tt
sort_by_start-All limit (r ∷ rs) a =
    insert_by_start-All limit r (sort_by_start rs) a.0 (sort_by_start-All limit rs a.1)

sort_by_start-IsSorted : (rs : List Range) → IsSorted 0 (sort_by_start rs)
unfolding sort_by_start
sort_by_start-IsSorted [] = tt
sort_by_start-IsSorted (r ∷ rs) =
    insert_by_start-IsSorted 0 r (sort_by_start rs) (omega arith) (sort_by_start-IsSorted rs)

merge_loop-IsSeparated :
    (limit lo cur_start cur_end : ℕ) (rs : List Range)
    → lo ≤ cur_start
    → cur_start ≤ cur_end
    → cur_end ≤ limit
    → All (IsValid limit) rs
    → IsSorted cur_start rs
    → IsSeparated lo (merge_loop limit cur_start cur_end rs)
unfolding merge_loop
merge_loop-IsSeparated limit lo cs ce [] p q f a s = (p, q, tt)
merge_loop-IsSeparated limit lo cs ce (r ∷ rs) p q f a s = ground (
  arith,
  merge_loop-IsSeparated limit lo cs (max ce r.end) rs,
  merge_loop-IsSeparated limit (ce + 2) r.start r.end rs,
  weaken rs,
)
  where
    weaken : (rs : List Range) → IsSorted r.start rs → IsSorted cs rs
    weaken [] t = tt
    weaken (x ∷ xs) t = (omega arith, t.1)

merge_loop-covers :
    (limit ip cur_start cur_end : ℕ) (rs : List Range)
    → cur_start ≤ cur_end
    → cur_end ≤ limit
    → All (IsValid limit) rs
    → IsSorted cur_start rs
    → covers (merge_loop limit cur_start cur_end rs) ip
      ≡ within ip (record { start = cur_start; end = cur_end }) || covers rs ip
unfolding merge_loop
merge_loop-covers limit ip cs ce [] q f a s = refl
merge_loop-covers limit ip cs ce (r ∷ rs) q f a s = ground (
  arith,
  merge_loop-covers limit ip cs (max ce r.end) rs,
  merge_loop-covers limit ip r.start r.end rs,
  weaken rs,
)
  where
    weaken : (rs : List Range) → IsSorted r.start rs → IsSorted cs rs
    weaken [] t = tt
    weaken (x ∷ xs) t = (omega arith, t.1)

-- For ranges whose ends are in order and inside the type, the merged table is in ascending order
-- with a free address between each two of its ranges.
pub merge_ranges-IsSeparated :
    (limit : ℕ) (rs : List Range) → All (IsValid limit) rs → IsSeparated 0 (merge_ranges limit rs)
unfolding merge_ranges
merge_ranges-IsSeparated limit rs a =
    sorted (sort_by_start rs) (sort_by_start-All limit rs a) (sort_by_start-IsSorted rs)
  where
    sorted :
        (rs : List Range)
        → All (IsValid limit) rs
        → IsSorted 0 rs
        → IsSeparated 0 (merge_sorted limit rs)
    sorted [] a s = tt
    sorted (r ∷ rs) a s =
        merge_loop-IsSeparated limit 0 r.start r.end rs (omega arith) a.0.ordered a.0.fits a.1 s.1

-- For such ranges an address lies in the merged table exactly when some input range holds it.
pub merge_ranges-covers :
    (limit ip : ℕ) (rs : List Range)
    → All (IsValid limit) rs
    → covers (merge_ranges limit rs) ip ≡ covers rs ip
unfolding merge_ranges
merge_ranges-covers limit ip rs a =
    sorted (sort_by_start rs) (sort_by_start-All limit rs a) (sort_by_start-IsSorted rs)
    ∙ sort_by_start-covers ip rs
  where
    sorted :
        (rs : List Range)
        → All (IsValid limit) rs
        → IsSorted 0 rs
        → covers (merge_sorted limit rs) ip ≡ covers rs ip
    sorted [] a s = refl
    sorted (r ∷ rs) a s = merge_loop-covers limit ip r.start r.end rs a.0.ordered a.0.fits a.1 s.1
