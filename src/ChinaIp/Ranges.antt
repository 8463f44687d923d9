-- ===== src/ChinaIp/Ranges.antt =====
-- What a list of ranges stands for, and when it is a merged table.
use ech_rust.Base.{
  ℕ, zero, suc, ◌+◌, ◌≤◌, ◌<◌, ◌≡◌, refl, Bool, false, ◌&&◌, List, [], ◌∷◌, some, arith, leb,
  get_elem?, any,
}
use ech_rust.ChinaIp.{Range}

abbrev pub within : ℕ → Range → Bool
within ip r = leb r.start ip && leb ip r.end

-- Some range of the list holds the address.
abbrev pub covers : List Range → ℕ → Bool
covers rs ip = any (within ip) rs

-- What `push_net` and `push_range` put into the table: ends in order, inside the type.
pub record IsValid (limit : ℕ) (r : Range) : Type 0 where
  pub ordered : r.start ≤ r.end
  pub fits : r.end ≤ limit

-- Starts that do not fall, from `lo` on.
abbrev pub IsSorted : ℕ → List Range → Type 0
IsSorted lo [] = Unit
IsSorted lo (r ∷ rs) = (lo ≤ r.start) × IsSorted r.start rs

-- Ranges in ascending order, from `lo` on, with a free address between each two.
abbrev pub IsSeparated : ℕ → List Range → Type 0
IsSeparated lo [] = Unit
IsSeparated lo (r ∷ rs) = (lo ≤ r.start) × (r.start ≤ r.end) × IsSeparated (r.end + 2) rs

pub covers-below :
    (lo ip : ℕ) (rs : List Range) → IsSeparated lo rs → ip < lo → covers rs ip ≡ false
covers-below lo ip [] s h = refl
covers-below lo ip (r ∷ rs) s h = ground (arith, covers-below (r.end + 2) ip rs)

pub lo-le-start :
    (lo i : ℕ) (rs : List Range) {r : Range}
    → IsSeparated lo rs
    → get_elem? rs i ≡ some r
    → lo ≤ r.start
lo-le-start lo i [] s h = cc
lo-le-start lo zero (x ∷ rs) s h = ground arith
lo-le-start lo (suc i) (x ∷ rs) s h = omega (arith, lo-le-start (x.end + 2) i rs s.2 h)

-- Where the neighbours of cell `i` lie on the right sides of the address, that cell decides.
pub covers-at :
    (lo ip i : ℕ) (rs : List Range) {r : Range}
    → IsSeparated lo rs
    → get_elem? rs i ≡ some r
    → r.start ≤ ip
    → ((q : Range) → get_elem? rs (suc i) ≡ some q → ip < q.start)
    → covers rs ip ≡ within ip r
covers-at lo ip i [] s h le next = cc
covers-at lo ip zero (x ∷ []) s h le next = ground arith
covers-at lo ip zero (x ∷ y ∷ rs) s h le next =
    ground (arith, next y refl, covers-below (y.end + 2) ip rs s.2.2)
covers-at lo ip (suc i) (x ∷ rs) s h le next =
    ground (arith, lo-le-start (x.end + 2) i rs s.2 h, covers-at (x.end + 2) ip i rs s.2 h le next)

pub covers-before :
    (lo ip : ℕ) (r : Range) (rs : List Range)
    → IsSeparated lo (r ∷ rs)
    → ip < r.start
    → covers (r ∷ rs) ip ≡ false
covers-before lo ip r rs s h = ground (arith, covers-below (r.end + 2) ip rs s.2)
