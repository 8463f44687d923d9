-- ===== src/ChinaIp/Table/Rows.antt =====
-- What one entry of a table file adds to the rows.
use Prim.Native.Nat.{bit_or}
use ech_rust.Base.Net.{IpAddr, v4, v6}
use ech_rust.Base.{
  ℕ, ◌+◌, ◌-◌, ◌*◌, ◌^◌, ◌≤◌, ◌≡◌, refl, Bool, false, ◌&&◌, ◌||◌, List, [], ◌∷◌, ◌++◌, Option, none,
  some, ok, arith, leb, if◌then◌else◌, any-append, All, All-append, Bool-cases, inl, inr,
}
use mathlib.Core.Path.{subst}
use native.Mathlib.Nat.{one-le-pow}
use ech_rust.Base.Bits.{bit_or_disjoint}
use ech_rust.Base.Text.{Text, trim, split_whitespace}
use ech_rust.ChinaIp.{Range, u32_max, u128_max}
use ech_rust.ChinaIp.Ranges.{within, covers, IsValid}
use ech_rust.ChinaIp.Table.{
  IpNet, net4, net6, AddrParsers, Tables, push_v4, push_v6, push_net, push_range, push_single,
  push_pair, push_fields, is_skipped, read_line,
}

-- What the parsers promise of their results: numbers of the address's width, an IPv4 network that
-- does not end before it starts, and an IPv6 network on a boundary of the size that its mask leaves.
pub record AddrLaws (p : AddrParsers) : Type 0 where
  pub ip4-le : (s : Text) (n : ℕ) → p.parse_ip s ≡ some (v4 n) → n ≤ u32_max
  pub ip6-le : (s : Text) (n : ℕ) → p.parse_ip s ≡ some (v6 n) → n ≤ u128_max
  pub net4-ordered :
      (s : Text) (n b : ℕ) → p.parse_net s ≡ some (net4 n b) → (n ≤ b) × (b ≤ u32_max)
  pub net6-aligned :
      (s : Text) (n m : ℕ)
      → p.parse_net s ≡ some (net6 n m)
      → (k : ℕ) × (q : ℕ) × (n ≡ q * 2 ^ k) × (m + 2 ^ k ≡ 2 ^ 128) × (n + 2 ^ k ≤ 2 ^ 128)

-- The addresses from the first to the second, of one family.
abbrev pub between : IpAddr → IpAddr → IpAddr → Bool
between (v4 a) (v4 b) (v4 ip) = leb a ip && leb ip b
between (v6 a) (v6 b) (v6 ip) = leb a ip && leb ip b
between _ _ _ = false

-- The addresses of a network: from its first one on, as many as the mask leaves free.
abbrev pub net_holds : IpNet → IpAddr → Bool
net_holds (net4 n b) (v4 ip) = leb n ip && leb ip b
net_holds (net6 n m) (v6 ip) = leb n ip && leb ip (n + (u128_max - m))
net_holds _ _ = false

abbrev pub both_hold : Option IpAddr → Option IpAddr → IpAddr → Bool
both_hold (some a) (some b) ip = between a b ip
both_hold _ _ ip = false

abbrev pub single_holds : Option IpNet → Option IpAddr → IpAddr → Bool
single_holds (some net) a ip = net_holds net ip
single_holds none a ip = both_hold a a ip

module _ (p : AddrParsers) where
  -- The entry that the fields of a line spell holds the address.
  abbrev pub fields_hold : List Text → IpAddr → Bool
  fields_hold (field ∷ []) ip = single_holds (p.parse_net field) (p.parse_ip field) ip
  fields_hold (start ∷ end ∷ []) ip = both_hold (p.parse_ip start) (p.parse_ip end) ip
  fields_hold _ ip = false

  -- The line is neither blank nor a comment, and its entry holds the address.
  abbrev pub line_holds : IpAddr → Text → Bool
  line_holds ip raw =
      if is_skipped p (trim raw) then false else fields_hold (split_whitespace (trim raw)) ip

-- The rows read so far hold the address.
abbrev pub rows_hold : Tables → IpAddr → Bool
rows_hold t (v4 ip) = covers t.v4_rows ip
rows_hold t (v6 ip) = covers t.v6_rows ip

pub record IsRows (t : Tables) : Type 0 where
  pub fits4 : All (IsValid u32_max) t.v4_rows
  pub fits6 : All (IsValid u128_max) t.v6_rows

-- One more entry, which holds the addresses of `held`.
pub record Adds (t t' : Tables) (held : IpAddr → Bool) : Type 0 where
  pub valid : IsRows t'
  pub holds : (ip : IpAddr) → rows_hold t' ip ≡ rows_hold t ip || held ip

snoc-covers :
    (xs : List Range) (r : Range) (ip : ℕ) → covers (xs ++ r ∷ []) ip ≡ covers xs ip || within ip r
snoc-covers xs r ip = ground (arith, any-append (within ip) xs (r ∷ []))

push_v4-Adds :
    (a b : ℕ) (t : Tables)
    → IsRows t
    → a ≤ b
    → b ≤ u32_max
    → Adds t (push_v4 a b t) (between (v4 a) (v4 b))
unfolding push_v4
push_v4-Adds a b t v h k = record {
  valid = record {
    fits4 = All-append (IsValid u32_max) t.v4_rows _ v.fits4 (record { ordered = h; fits = k }, tt);
    fits6 = v.fits6;
  };
  holds = elim [ v4 ip ↦ snoc-covers t.v4_rows _ ip | v6 ip ↦ ground arith ];
}

push_v6-Adds :
    (a b : ℕ) (t : Tables)
    → IsRows t
    → a ≤ b
    → b ≤ u128_max
    → Adds t (push_v6 a b t) (between (v6 a) (v6 b))
unfolding push_v6
push_v6-Adds a b t v h k = record {
  valid = record {
    fits4 = v.fits4;
    fits6 =
        All-append (IsValid u128_max) t.v6_rows _ v.fits6 (record { ordered = h; fits = k }, tt);
  };
  holds = elim [ v4 ip ↦ ground arith | v6 ip ↦ snoc-covers t.v6_rows _ ip ];
}

push_net4-Adds :
    (n b : ℕ) (t : Tables)
    → IsRows t
    → n ≤ b
    → b ≤ u32_max
    → Adds t (push_net (net4 n b) t) (net_holds (net4 n b))
unfolding push_net
push_net4-Adds n b t v h k =
    let a = push_v4-Adds n b t v h k in
    record { valid = a.valid; holds = elim [ v4 ip ↦ a.holds (v4 ip) | v6 ip ↦ a.holds (v6 ip) ] }

-- The host bits of an aligned network are free, so `prefix | hostmask` is the sum.
or_hostmask :
    (n m k q : ℕ)
    → n ≡ q * 2 ^ k
    → m + 2 ^ k ≡ 2 ^ 128
    → bit_or n (u128_max - m) ≡ n + (u128_max - m)
or_hostmask n m k q e f = rw e (bit_or_disjoint k q (u128_max - m) (omega (arith, one-le-pow k 2)))

push_net6-Adds :
    (n m k q : ℕ) (t : Tables)
    → IsRows t
    → n ≡ q * 2 ^ k
    → m + 2 ^ k ≡ 2 ^ 128
    → n + 2 ^ k ≤ 2 ^ 128
    → Adds t (push_net (net6 n m) t) (net_holds (net6 n m))
unfolding push_net
push_net6-Adds n m k q t v e f h =
    let a =
      push_v6-Adds n (bit_or n (u128_max - m)) t v (omega (arith, or_hostmask n m k q e f))
        (omega (arith, or_hostmask n m k q e f, one-le-pow k 2)) in
    record {
      valid = a.valid;
      holds = elim [
        | v4 ip ↦ a.holds (v4 ip)
        | v6 ip ↦ ground (arith, a.holds (v6 ip), or_hostmask n m k q e f)
      ];
    }

push_range-v4 :
    (a b : ℕ) (t : Tables) {t' : Tables}
    → push_range (v4 a) (v4 b) t ≡ ok t'
    → (a ≤ b) × (push_v4 a b t ≡ t')
unfolding push_range
push_range-v4 a b t e = ground arith

push_range-v6 :
    (a b : ℕ) (t : Tables) {t' : Tables}
    → push_range (v6 a) (v6 b) t ≡ ok t'
    → (a ≤ b) × (push_v6 a b t ≡ t')
unfolding push_range
push_range-v6 a b t e = ground arith

-- The number of an address is one of its family's width.
abbrev pub IsAddr : IpAddr → Type 0
IsAddr (v4 n) = n ≤ u32_max
IsAddr (v6 n) = n ≤ u128_max

-- A range that `push_range` accepts is one whose ends are of one family and in order.
push_range-Adds :
    (a b : IpAddr) (t : Tables) {t' : Tables}
    → IsRows t
    → IsAddr b
    → push_range a b t ≡ ok t'
    → Adds t t' (between a b)
push_range-Adds (v4 a) (v4 b) t v h e =
    let (le, done) = push_range-v4 a b t e in
    subst (λ u. Adds t u (between (v4 a) (v4 b))) done (push_v4-Adds a b t v le h)
push_range-Adds (v6 a) (v6 b) t v h e =
    let (le, done) = push_range-v6 a b t e in
    subst (λ u. Adds t u (between (v6 a) (v6 b))) done (push_v6-Adds a b t v le h)
push_range-Adds (v4 a) (v6 b) t v h e = unfold push_range in cc
push_range-Adds (v6 a) (v4 b) t v h e = unfold push_range in cc

module _ (p : AddrParsers) (laws : AddrLaws p) where
  parse_ip-IsAddr : (s : Text) (a : IpAddr) → p.parse_ip s ≡ some a → IsAddr a
  parse_ip-IsAddr s (v4 n) e = laws.ip4-le s n e
  parse_ip-IsAddr s (v6 n) e = laws.ip6-le s n e

  push_net-Adds :
      (s : Text) (net : IpNet) (t : Tables)
      → IsRows t
      → p.parse_net s ≡ some net
      → Adds t (push_net net t) (net_holds net)
  push_net-Adds s (net4 n b) t v e =
      push_net4-Adds n b t v (laws.net4-ordered s n b e).0 (laws.net4-ordered s n b e).1
  push_net-Adds s (net6 n m) t v e =
      let (k, q, aligned, mask, fits) = laws.net6-aligned s n m e in
      push_net6-Adds n m k q t v aligned mask fits

  push_pair-Adds :
      (s s' : Text) (o o' : Option IpAddr) (t : Tables) {t' : Tables}
      → IsRows t
      → p.parse_ip s' ≡ o'
      → push_pair o o' t ≡ ok t'
      → Adds t t' (both_hold o o')
  unfolding push_pair
  push_pair-Adds s s' none o' t v e f = cc
  push_pair-Adds s s' (some a) none t v e f = cc
  push_pair-Adds s s' (some a) (some b) t v e f = push_range-Adds a b t v (parse_ip-IsAddr s' b e) f

  push_single-Adds :
      (s : Text) (n : Option IpNet) (o : Option IpAddr) (t : Tables) {t' : Tables}
      → IsRows t
      → p.parse_net s ≡ n
      → p.parse_ip s ≡ o
      → push_single n o t ≡ ok t'
      → Adds t t' (single_holds n o)
  unfolding push_single
  push_single-Adds s (some net) o t {t'} v e f h =
      let done : push_net net t ≡ t' = cc in
      subst (λ u. Adds t u (net_holds net)) done (push_net-Adds s net t v e)
  push_single-Adds s none none t v e f h = cc
  push_single-Adds s none (some a) t v e f h = push_range-Adds a a t v (parse_ip-IsAddr s a f) h

  push_fields-Adds :
      (fields : List Text) (t : Tables) {t' : Tables}
      → IsRows t
      → push_fields p fields t ≡ ok t'
      → Adds t t' (fields_hold p fields)
  unfolding push_fields
  push_fields-Adds [] t v h = cc
  push_fields-Adds (s ∷ []) t v h =
      push_single-Adds s (p.parse_net s) (p.parse_ip s) t v refl refl h
  push_fields-Adds (s ∷ s' ∷ []) t v h =
      push_pair-Adds s s' (p.parse_ip s) (p.parse_ip s') t v refl h
  push_fields-Adds (s ∷ s' ∷ s'' ∷ r) t v h = cc

  -- A line that is accepted keeps the rows valid, and adds the addresses of its entry.
  pub read_line-Adds :
      (raw : Text) (t : Tables) {t' : Tables}
      → IsRows t
      → read_line p raw t ≡ ok t'
      → Adds t t' (λ ip. line_holds p ip raw)
  unfolding read_line
  read_line-Adds raw t {t'} v h = elim (Bool-cases (is_skipped p (trim raw))) [
    | inl skip ↦
        let same : t ≡ t' = ground arith in
        subst (λ u. Adds t u (λ ip. line_holds p ip raw)) same
          (record { valid = v; holds = λ ip. ground arith })
    | inr keep ↦
        let a = push_fields-Adds (split_whitespace (trim raw)) t {t' = t'} v (ground arith) in
        record { valid = a.valid; holds = λ ip. rw keep (a.holds ip) }
  ]
