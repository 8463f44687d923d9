-- ===== src/ChinaIp/Table.antt =====
-- `ChinaIpSet::load`: reading the two table files.
pub mod Rows
pub mod Load
use Prim.Native.Nat.{bit_or}
use ech_rust.Base.Net.{IpAddr, v4, v6}
use ech_rust.Base.{
  ℕ, ◌+◌, ◌-◌, ◌≤◌, ◌<◌, ◌≡◌, Bool, true, false, ◌||◌, List, [], ◌∷◌, ◌++◌, Option, none, some,
  Result, ok, err, ◌>>=◌, ok_or, ltb, if◌then◌else◌,
}
use ech_rust.Base.Text.{Text, codes, is_empty, trim, split_whitespace, lines, starts_with}
use ech_rust.ChinaIp.{Range, u128_max, ChinaIpSet, merge_u32_ranges, merge_u128_ranges}

-- What the code reads off an `ipnet::IpNet`: `network()` with `broadcast()`, or with `netmask()`.
pub data IpNet : Type 0 where
  net4 : ℕ → ℕ → IpNet
  net6 : ℕ → ℕ → IpNet

-- `str::parse::<IpAddr>` and `str::parse::<IpNet>`.
pub record AddrParsers : Type 0 where
  pub parse_ip : Text → Option IpAddr
  pub parse_net : Text → Option IpNet

pub data EntryError : Type 0 where
  invalid_entry invalid_start invalid_end : EntryError
  v4_reversed v6_reversed versions_differ : EntryError

pub data TableError : Type 0 where
  read_failed : TableError
  at_line : ℕ → EntryError → TableError

-- The two vectors that reading pushes to.
pub record Tables : Type 0 where
  pub v4_rows : List Range
  pub v6_rows : List Range

pub push_v4 : ℕ → ℕ → Tables → Tables
push_v4 a b t = record t { v4_rows = t.v4_rows ++ (record { start = a; end = b } ∷ []) }

pub push_v6 : ℕ → ℕ → Tables → Tables
push_v6 a b t = record t { v6_rows = t.v6_rows ++ (record { start = a; end = b } ∷ []) }

-- `!netmask` on 128 bits is `u128_max - netmask`.
pub push_net : IpNet → Tables → Tables
unfolding push_v4 push_v6
push_net (net4 network broadcast) t = push_v4 network broadcast t
push_net (net6 network netmask) t =
    let hostmask = u128_max - netmask in push_v6 network (bit_or network hostmask) t

pub push_range : IpAddr → IpAddr → Tables → Result EntryError Tables
unfolding push_v4 push_v6
push_range (v4 a) (v4 b) t = if ltb b a then err v4_reversed else ok (push_v4 a b t)
push_range (v6 a) (v6 b) t = if ltb b a then err v6_reversed else ok (push_v6 a b t)
push_range _ _ t = err versions_differ

-- The arm for one field: what `parse::<IpNet>` and, if that fails, `parse::<IpAddr>` give.
pub push_single : Option IpNet → Option IpAddr → Tables → Result EntryError Tables
unfolding push_net push_range
push_single (some net) ip t = ok (push_net net t)
push_single none ip t = do a ← ok_or invalid_entry ip; push_range a a t

-- The arm for two fields, on what `parse::<IpAddr>` gives for each.
pub push_pair : Option IpAddr → Option IpAddr → Tables → Result EntryError Tables
unfolding push_range
push_pair start end t = do
  a ← ok_or invalid_start start
  b ← ok_or invalid_end end
  push_range a b t

module _ (p : AddrParsers) where
  -- The `match` on the fields of a line.
  pub push_fields : List Text → Tables → Result EntryError Tables
  unfolding push_single push_pair
  push_fields (single ∷ []) t = push_single (p.parse_net single) (p.parse_ip single) t
  push_fields (start ∷ end ∷ []) t = push_pair (p.parse_ip start) (p.parse_ip end) t
  push_fields _ t = err invalid_entry

  pub is_skipped : Text → Bool
  is_skipped line = is_empty line || starts_with (codes "#") line

  -- The body of the loop over the lines.
  pub read_line : Text → Tables → Result EntryError Tables
  unfolding push_fields is_skipped
  read_line raw t =
      let line = trim raw in if is_skipped line then ok t else push_fields (split_whitespace line) t

  pub read_lines : ℕ → List Text → Tables → Result TableError Tables
  unfolding read_line
  read_lines idx [] t = ok t
  read_lines idx (raw ∷ rest) t = elim (read_line raw t) [
    | err e ↦ err (at_line (idx + 1) e)
    | ok t' ↦ read_lines (idx + 1) rest t'
  ]

  -- The contents of the file, or `none` where it cannot be read.
  unfoldable pub read_ip_table : Option Text → Tables → Result TableError Tables
  unfolding read_lines
  read_ip_table none t = err read_failed
  read_ip_table (some raw) t = read_lines 0 (lines raw) t

  unfoldable pub load : Option Text → Option Text → Result TableError ChinaIpSet
  unfolding read_ip_table
  load v4_file v6_file = do
    first ← read_ip_table v4_file (record { v4_rows = []; v6_rows = [] })
    both ← read_ip_table v6_file first
    ok (record {
      v4_ranges = merge_u32_ranges both.v4_rows;
      v6_ranges = merge_u128_ranges both.v6_rows;
    })
