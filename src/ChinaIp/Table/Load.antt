-- ===== src/ChinaIp/Table/Load.antt =====
-- What `ChinaIpSet::load` makes of the two files.
use ech_rust.Base.Net.{IpAddr, v4, v6}
use ech_rust.Base.{
  ℕ, ◌+◌, ◌≡◌, refl, sym, ap, ◌∙◌, false, List, [], ◌∷◌, ◌++◌, Option, none, some, ok, err,
  >>=-eq-ok, arith, any, any-append, Result-cases, inl, inr, length, or_assoc, or_false,
}
use mathlib.Core.Path.{subst}
use ech_rust.Base.Text.{Text, lines}
use ech_rust.ChinaIp.{u32_max, u128_max, ChinaIpSet, contains, merge_u32_ranges, merge_u128_ranges}
use ech_rust.ChinaIp.Merge.{merge_ranges-IsSeparated, merge_ranges-covers}
use ech_rust.ChinaIp.Search.{contains_range-covers}
use ech_rust.ChinaIp.Table.{
  AddrParsers, EntryError, at_line, Tables, read_line, read_lines, read_ip_table, load,
}
use ech_rust.ChinaIp.Table.Rows.{AddrLaws, line_holds, rows_hold, IsRows, Adds, read_line-Adds}

merged_contains :
    (t : Tables)
    → IsRows t
    → (ip : IpAddr)
    → contains
        (record { v4_ranges = merge_u32_ranges t.v4_rows; v6_ranges = merge_u128_ranges t.v6_rows })
        ip
      ≡ some (rows_hold t ip)
unfolding contains merge_u32_ranges merge_u128_ranges
merged_contains t v (v4 ip) =
    contains_range-covers _ ip (merge_ranges-IsSeparated u32_max t.v4_rows v.fits4)
    ∙ ap some (merge_ranges-covers u32_max ip t.v4_rows v.fits4)
merged_contains t v (v6 ip) =
    contains_range-covers _ ip (merge_ranges-IsSeparated u128_max t.v6_rows v.fits6)
    ∙ ap some (merge_ranges-covers u128_max ip t.v6_rows v.fits6)

abbrev no_rows : Tables
no_rows = record { v4_rows = []; v6_rows = [] }

start_empty : (ip : IpAddr) → rows_hold no_rows ip ≡ false
start_empty (v4 ip) = refl
start_empty (v6 ip) = refl

-- The lines of a file that was read; an unreadable one has none.
abbrev pub file_lines : Option Text → List Text
file_lines none = []
file_lines (some raw) = lines raw

module _ (p : AddrParsers) (laws : AddrLaws p) where
  read_lines-Adds :
      (idx : ℕ) (rows : List Text) (t : Tables) {t' : Tables}
      → IsRows t
      → read_lines p idx rows t ≡ ok t'
      → Adds t t' (λ ip. any (line_holds p ip) rows)
  unfolding read_lines
  read_lines-Adds idx [] t {t'} v e =
      let done : t ≡ t' = cc in
      subst (λ u. Adds t u (λ ip. false)) done
        (record { valid = v; holds = λ ip. sym (or_false (rows_hold t ip)) })
  read_lines-Adds idx (raw ∷ rest) t {t'} v e = elim (Result-cases (read_line p raw t)) [
    | inr (why, bad) ↦ absurd (ground arith)
    | inl (u, good) ↦
        let first = read_line-Adds p laws raw t {t' = u} v good in
        let later = read_lines-Adds (idx + 1) rest u {t' = t'} first.valid (ground arith) in
        record {
          valid = later.valid;
          holds = λ ip.
              later.holds ip
              ∙ rw (first.holds ip)
                  (or_assoc (rows_hold t ip) (line_holds p ip raw) (any (line_holds p ip) rest));
        }
  ]

  read_ip_table-Adds :
      (file : Option Text) (t : Tables) {t' : Tables}
      → IsRows t
      → read_ip_table p file t ≡ ok t'
      → Adds t t' (λ ip. any (line_holds p ip) (file_lines file))
  unfolding read_ip_table
  read_ip_table-Adds none t v e = cc
  read_ip_table-Adds (some raw) t v e = read_lines-Adds 0 (lines raw) t v e

  -- Where both files are read without an error, `contains` answers for every address, without an
  -- index panic, whether an entry of a line of either file holds it. The parsers are held to the
  -- laws `AddrLaws`.
  pub load-contains :
      (file4 file6 : Option Text) (set : ChinaIpSet) (ip : IpAddr)
      → load p file4 file6 ≡ ok set
      → contains set ip ≡ some (any (line_holds p ip) (file_lines file4 ++ file_lines file6))
  unfolding load
  load-contains file4 file6 set ip e =
      let start = no_rows in
      let (one, e1, rest) = >>=-eq-ok (read_ip_table p file4 start) _ e in
      let (two, e2, done) = >>=-eq-ok (read_ip_table p file6 one) _ rest in
      let a1 = read_ip_table-Adds file4 start {t' = one} (record { fits4 = tt; fits6 = tt }) e1 in
      let a2 = read_ip_table-Adds file6 one {t' = two} a1.valid e2 in
      let made = merged_contains two a2.valid ip in
      let none_yet = start_empty ip in
      let split = any-append (line_holds p ip) (file_lines file4) (file_lines file6) in
      cc (a1.holds ip, a2.holds ip)

module _ (p : AddrParsers) where
  -- `rows` splits where reading from row `idx` on gives up.
  pub record FailsAt (idx : ℕ) (rows : List Text) (t : Tables) (n : ℕ) (why : EntryError)
      : Type 0 where
    pub before : List Text
    pub line : Text
    pub after : List Text
    pub reached : Tables
    pub splits : rows ≡ before ++ line ∷ after
    pub line_is : n ≡ idx + length before + 1
    pub reads : read_lines p idx before t ≡ ok reached
    pub refuses : read_line p line reached ≡ err why

  read_lines-FailsAt :
      (idx : ℕ) (rows : List Text) (t : Tables) (n : ℕ) (why : EntryError)
      → read_lines p idx rows t ≡ err (at_line n why)
      → FailsAt idx rows t n why
  unfolding read_lines
  read_lines-FailsAt idx [] t n why e = cc
  read_lines-FailsAt idx (raw ∷ rest) t n why e = elim (Result-cases (read_line p raw t)) [
    | inr (e', bad) ↦ record {
      before = [];
      line = raw;
      after = rest;
      reached = t;
      splits = refl;
      line_is = ground arith;
      reads = refl;
      refuses = ground arith;
    }
    | inl (u, good) ↦
        let f = read_lines-FailsAt (idx + 1) rest u n why (ground arith) in
        record {
          before = raw ∷ f.before;
          line = f.line;
          after = f.after;
          reached = f.reached;
          splits = ap (◌∷◌ raw) f.splits;
          line_is = omega (arith, f.line_is);
          reads = ground (arith, f.reads);
          refuses = f.refuses;
        }
  ]

  -- An error that reading reports at line `n` is that of the `n`-th line of the file, counted from
  -- 1, and every line before it was accepted.
  pub read_ip_table-FailsAt :
      (raw : Text) (t : Tables) (n : ℕ) (why : EntryError)
      → read_ip_table p (some raw) t ≡ err (at_line n why)
      → FailsAt 0 (lines raw) t n why
  unfolding read_ip_table
  read_ip_table-FailsAt raw t n why e = read_lines-FailsAt 0 (lines raw) t n why e
