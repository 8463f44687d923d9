-- ===== src/Tests/Tables.antt =====
-- client/src/china_ip.rs, on the tables of its unit tests and on two small files.
use ech_rust.Base.Net.{IpAddr, v4, v6}
use ech_rust.Base.Text.{Text, codes, same, lines, trim, split_whitespace, starts_with}
use ech_rust.Base.{
  ℕ, ◌+◌, ◌*◌, ◌-◌, ◌^◌, ◌≡◌, refl, true, false, List, [], ◌∷◌, ◌++◌, Option, none, some, ok, err,
  arith, if◌then◌else◌, any, All,
}
use ech_rust.ChinaIp.Canonical.{merge_ranges-canonical}
use ech_rust.ChinaIp.Merge.{merge_ranges-IsSeparated}
use ech_rust.ChinaIp.Ranges.{IsSeparated, IsValid, covers}
use ech_rust.ChinaIp.Search.{contains_range-covers}
use ech_rust.ChinaIp.Table.Load.{load-contains, read_ip_table-FailsAt, FailsAt, file_lines}
use ech_rust.ChinaIp.Table.Rows.{AddrLaws, line_holds}
use ech_rust.ChinaIp.Table.{
  AddrParsers, IpNet, net4, net6, Tables, at_line, invalid_end, load, read_ip_table,
}
use ech_rust.ChinaIp.{
  Range, ChinaIpSet, contains, contains_range, merge_ranges, merge_u32_ranges, merge_u128_ranges,
  u32_max,
}

-- a.b.c.d
abbrev addr : ℕ → ℕ → ℕ → ℕ → ℕ
addr a b c d = ((a * 256 + b) * 256 + c) * 256 + d

abbrev range : ℕ → ℕ → Range
range a b = record { start = a; end = b }

abbrev rows : List Range
rows =
    range (addr 10 0 0 0) (addr 10 0 0 255)
    ∷ range (addr 1 0 1 0) (addr 1 0 1 255)
    ∷ range (addr 1 0 2 0) (addr 1 0 3 255)
    ∷ []

abbrev merged : List Range
merged = range (addr 1 0 1 0) (addr 1 0 3 255) ∷ range (addr 10 0 0 0) (addr 10 0 0 255) ∷ []

merges : merge_ranges u32_max rows ≡ merged
unfolding merge_ranges
merges = refl

looks_up :
    (contains_range merged (addr 1 0 2 10) ≡ some true)
    × (contains_range merged (addr 1 0 3 255) ≡ some true)
    × (contains_range merged (addr 1 0 4 0) ≡ some false)
    × (contains_range merged (addr 9 255 255 255) ≡ some false)
    × (contains_range merged (addr 10 0 0 1) ≡ some true)
unfolding contains_range
looks_up = (refl, refl, refl, refl, refl)

valid : All (IsValid u32_max) rows
valid = omega arith

merge_ranges-IsSeparated_example : IsSeparated 0 (merge_ranges u32_max rows)
merge_ranges-IsSeparated_example = merge_ranges-IsSeparated u32_max rows valid

same_cover : (ip : ℕ) → covers rows ip ≡ covers merged ip
same_cover ip = ground arith

merge_ranges-canonical_example : merge_ranges u32_max rows ≡ merge_ranges u32_max merged
merge_ranges-canonical_example =
    merge_ranges-canonical u32_max rows merged valid (omega arith) same_cover

contains_range-covers_example :
    contains_range merged (addr 9 0 0 0) ≡ some (covers merged (addr 9 0 0 0))
contains_range-covers_example = contains_range-covers merged (addr 9 0 0 0) (omega arith)

-- Parsers that know the entries of the two files below.
abbrev parse_ip : Text → Option IpAddr
parse_ip t =
    if same t (codes "1.0.1.0")
    then some (v4 (addr 1 0 1 0))
    else if same t (codes "1.0.3.255")
    then some (v4 (addr 1 0 3 255))
    else none

abbrev parse_net : Text → Option IpNet
parse_net t =
    if same t (codes "10.0.0.0/24")
    then some (net4 (addr 10 0 0 0) (addr 10 0 0 255))
    else if same t (codes "2001:250::/32")
    then some (net6 (0x2001_0250 * 2 ^ 96) (2 ^ 128 - 2 ^ 96))
    else none

abbrev pub parsers : AddrParsers
parsers = record { parse_ip = parse_ip; parse_net = parse_net }

net6_law :
    (s : Text) (n m : ℕ)
    → parse_net s ≡ some (net6 n m)
    → (n ≡ 0x2001_0250 * 2 ^ 96) × (m ≡ 2 ^ 128 - 2 ^ 96)
net6_law s n m e = ground arith

pub laws : AddrLaws parsers
laws = record {
  ip4-le = λ s n e. ground arith;
  ip6-le = λ s n e. ground arith;
  net4-ordered = λ s n b e. ground arith;
  net6-aligned =
      λ s n m e. let (f, g) = net6_law s n m e in (96, 0x2001_0250, f, omega arith, omega arith);
}

abbrev pub file4 : Option Text
file4 = some (codes "# IPv4\r\n1.0.1.0  1.0.3.255\r\n\n 10.0.0.0/24")

abbrev pub file6 : Option Text
file6 = some (codes "2001:250::/32\n")

abbrev pub table : ChinaIpSet
table = record {
  v4_ranges = merged;
  v6_ranges = range (0x2001_0250 * 2 ^ 96) (0x2001_0251 * 2 ^ 96 - 1) ∷ [];
}

pub loads : load parsers file4 file6 ≡ ok table
unfolding load lines trim starts_with split_whitespace merge_u32_ranges merge_u128_ranges
loads = refl

load-contains_example :
    contains table (v6 (0x2001_0250 * 2 ^ 96 + 1))
    ≡ some (
        any
          (line_holds parsers (v6 (0x2001_0250 * 2 ^ 96 + 1)))
          (file_lines file4 ++ file_lines file6))
load-contains_example =
    load-contains parsers laws file4 file6 table (v6 (0x2001_0250 * 2 ^ 96 + 1)) loads

abbrev no_rows : Tables
no_rows = record { v4_rows = []; v6_rows = [] }

abbrev bad_file : Text
bad_file = codes "# IPv4\n1.0.1.0 oops\n"

fails : read_ip_table parsers (some bad_file) no_rows ≡ err (at_line 2 invalid_end)
unfolding read_ip_table lines trim starts_with split_whitespace
fails = refl

read_ip_table-FailsAt_example : FailsAt parsers 0 (lines bad_file) no_rows 2 invalid_end
read_ip_table-FailsAt_example = read_ip_table-FailsAt parsers bad_file no_rows 2 invalid_end fails
