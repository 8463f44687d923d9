-- ===== src/ChinaIp/Canonical.antt =====
-- A merged table depends only on the addresses that its input covers.
use ech_rust.Base.{ℕ, ◌+◌, ◌≤◌, ◌≡◌, refl, sym, ◌∙◌, List, [], ◌∷◌, arith, All}
use ech_rust.ChinaIp.{Range, merge_ranges}
use ech_rust.ChinaIp.Ranges.{covers, IsValid, IsSeparated, covers-below, covers-before}
use ech_rust.ChinaIp.Merge.{merge_ranges-IsSeparated, merge_ranges-covers}

abbrev SameCover : List Range → List Range → Type 0
SameCover rs qs = (ip : ℕ) → covers rs ip ≡ covers qs ip

module _ (lo : ℕ) (r q : Range) (rs qs : List Range) where
  start-le :
      IsSeparated lo (r ∷ rs)
      → IsSeparated lo (q ∷ qs)
      → SameCover (r ∷ rs) (q ∷ qs)
      → q.start ≤ r.start
  start-le s t same = ground (arith, same r.start, covers-before lo r.start q qs t)

  end-le :
      IsSeparated lo (r ∷ rs)
      → IsSeparated lo (q ∷ qs)
      → SameCover (r ∷ rs) (q ∷ qs)
      → r.start ≡ q.start
      → q.end ≤ r.end
  end-le s t same e = ground (arith, same (r.end + 1), covers-below (r.end + 2) (r.end + 1) rs s.2)

  tail-SameCover :
      IsSeparated lo (r ∷ rs)
      → IsSeparated lo (q ∷ qs)
      → SameCover (r ∷ rs) (q ∷ qs)
      → r.start ≡ q.start
      → r.end ≡ q.end
      → SameCover rs qs
  tail-SameCover s t same e f ip =
      ground
        (arith, same ip, covers-below (r.end + 2) ip rs s.2, covers-below (q.end + 2) ip qs t.2)

-- A separated table is determined by the addresses in it.
pub IsSeparated-unique :
    (lo : ℕ) (rs qs : List Range)
    → IsSeparated lo rs
    → IsSeparated lo qs
    → SameCover rs qs
    → rs ≡ qs
IsSeparated-unique lo [] [] s t same = refl
IsSeparated-unique lo [] (q ∷ qs) s t same = absurd (ground (arith, same q.start))
IsSeparated-unique lo (r ∷ rs) [] s t same = absurd (ground (arith, same r.start))
IsSeparated-unique lo (r ∷ rs) (q ∷ qs) s t same =
    let back = λ (ip : ℕ). sym (same ip) in
    let starts : r.start ≡ q.start =
      omega (arith, start-le lo r q rs qs s t same, start-le lo q r qs rs t s back) in
    let ends : r.end ≡ q.end =
      omega
        (arith, end-le lo r q rs qs s t same starts, end-le lo q r qs rs t s back (sym starts)) in
    let t' : IsSeparated (r.end + 2) qs = rw ends t.2 in
    let rest =
      IsSeparated-unique (r.end + 2) rs qs s.2 t'
        (tail-SameCover lo r q rs qs s t same starts ends) in
    cc

-- Two inputs of valid ranges that hold the same addresses give the same merged table; so neither
-- the order of the input lines nor the order that the unstable sort leaves equal starts in matters.
pub merge_ranges-canonical :
    (limit : ℕ) (rs qs : List Range)
    → All (IsValid limit) rs
    → All (IsValid limit) qs
    → SameCover rs qs
    → merge_ranges limit rs ≡ merge_ranges limit qs
merge_ranges-canonical limit rs qs a b same =
    IsSeparated-unique 0 _ _ (merge_ranges-IsSeparated limit rs a)
      (merge_ranges-IsSeparated limit qs b)
      λ ip. merge_ranges-covers limit ip rs a ∙ same ip ∙ sym (merge_ranges-covers limit ip qs b)
