-- ===== src/ChinaIp.antt =====
-- client/src/china_ip.rs: the table of inclusive IP ranges behind direct routing.
pub mod Ranges
pub mod Merge
pub mod Search
pub mod Canonical
pub mod Table
use ech_rust.Base.Net.{IpAddr, v4, v6}
use ech_rust.Base.{
  ℕ, zero, suc, ◌+◌, ◌-◌, ◌/◌, ◌≤◌, ◌^◌, min, max, Bool, true, false, ◌&&◌, List, [], ◌∷◌, Option,
  none, some, Result, ok, err, ltb, leb, ◌==◌, if◌then◌else◌, length, get_elem?,
}

-- `(start, end)`, both ends inside.
pub record Range : Type 0 where
  pub start : ℕ
  pub end : ℕ

abbrev pub u32_max : ℕ
u32_max = 2 ^ 32 - 1

abbrev pub u128_max : ℕ
u128_max = 2 ^ 128 - 1

-- `saturating_add`, below the type's largest value.
pub saturating_add : ℕ → ℕ → ℕ → ℕ
saturating_add limit a b = min limit (a + b)

-- `sort_unstable_by_key(|(start, _)| *start)`. The order of equal keys is not specified; the
-- merged table does not depend on it (`ChinaIp.Merge`).
pub insert_by_start : Range → List Range → List Range
insert_by_start r [] = r ∷ []
insert_by_start r (x ∷ xs) = if leb r.start x.start then r ∷ x ∷ xs else x ∷ insert_by_start r xs

pub sort_by_start : List Range → List Range
unfolding insert_by_start
sort_by_start [] = []
sort_by_start (r ∷ rs) = insert_by_start r (sort_by_start rs)

-- The loop over the ranges behind the first one; `limit` is the type's largest value.
pub merge_loop : ℕ → ℕ → ℕ → List Range → List Range
unfolding saturating_add
merge_loop limit cur_start cur_end [] = record { start = cur_start; end = cur_end } ∷ []
merge_loop limit cur_start cur_end (r ∷ rs) = elim (leb r.start (saturating_add limit cur_end 1)) [
  | true ↦ merge_loop limit cur_start (max cur_end r.end) rs
  | false ↦ record { start = cur_start; end = cur_end } ∷ merge_loop limit r.start r.end rs
]

pub merge_sorted : ℕ → List Range → List Range
unfolding merge_loop
merge_sorted limit [] = []
merge_sorted limit (r ∷ rs) = merge_loop limit r.start r.end rs

unfoldable pub merge_ranges : ℕ → List Range → List Range
unfolding merge_sorted sort_by_start
merge_ranges limit rs = merge_sorted limit (sort_by_start rs)

unfoldable pub merge_u32_ranges : List Range → List Range
unfolding merge_ranges
merge_u32_ranges = merge_ranges u32_max

unfoldable pub merge_u128_ranges : List Range → List Range
unfolding merge_ranges
merge_u128_ranges = merge_ranges u128_max

-- `binary_search_by_key(&key, |range| range.0)` of the standard library: `base` and `size` are its
-- loop variables, and `size` rounds are more than it makes. A read past the end is `none`.
pub search_loop : ℕ → ℕ → List Range → ℕ → ℕ → Option ℕ
search_loop zero key ranges base size = some base
search_loop (suc fuel) key ranges base size = elim (ltb 1 size) [
  | false ↦ some base
  | true ↦ elim (get_elem? ranges (base + size / 2)) [
    | none ↦ none
    | some r ↦
        search_loop fuel key ranges (if ltb key r.start then base else base + size / 2)
          (size - size / 2)
  ]
]

-- `Ok(i)` and `Err(i)` of the search, from the cell that the loop ends on.
pub search_result : ℕ → ℕ → Range → Result ℕ ℕ
search_result key base r =
    if r.start == key then ok base else if ltb r.start key then err (suc base) else err base

pub binary_search_by_start : List Range → ℕ → Option (Result ℕ ℕ)
unfolding search_loop search_result
binary_search_by_start [] key = some (err 0)
binary_search_by_start (x ∷ xs) key =
    elim (search_loop (length (x ∷ xs)) key (x ∷ xs) 0 (length (x ∷ xs))) [
      | none ↦ none
      | some base ↦ elim (get_elem? (x ∷ xs) base) [
        | none ↦ none
        | some r ↦ some (search_result key base r)
      ]
    ]

-- The `match` on the search's result; `none` is an index panic.
pub contains_at : List Range → ℕ → Result ℕ ℕ → Option Bool
contains_at ranges ip (ok i) = some true
contains_at ranges ip (err zero) = some false
contains_at ranges ip (err (suc i)) = elim (get_elem? ranges i) [
  | none ↦ none
  | some r ↦ some (leb r.start ip && leb ip r.end)
]

-- `contains_u32` and `contains_u128`.
unfoldable pub contains_range : List Range → ℕ → Option Bool
unfolding binary_search_by_start contains_at
contains_range ranges ip = elim (binary_search_by_start ranges ip) [
  | none ↦ none
  | some found ↦ contains_at ranges ip found
]

pub record ChinaIpSet : Type 0 where
  pub v4_ranges : List Range
  pub v6_ranges : List Range

unfoldable pub contains : ChinaIpSet → IpAddr → Option Bool
unfolding contains_range
contains set (v4 ip) = contains_range set.v4_ranges ip
contains set (v6 ip) = contains_range set.v6_ranges ip
