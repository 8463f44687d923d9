-- ===== src/Policy/Blocks.antt =====
-- The refused addresses as blocks.
use ech_rust.Base.Bits.{bit_and-0xfe00, bit_and-0xffc0}
use ech_rust.Base.Net.{IpAddr, v4, v6}
use ech_rust.Base.{
  ℕ, ◌+◌, ◌*◌, ◌/◌, ◌%◌, ◌^◌, ◌<◌, ◌≡◌, Bool, ◌&&◌, ◌||◌, List, [], ◌∷◌, ok, err, arith, ltb, leb,
  any, or_assoc, or_false, if◌then◌else◌, ◌∙◌,
}
use ech_rust.Policy.{
  Policy, denied, check_ip, address_denied, is_private, is_loopback, is_link_local, is_multicast,
  is_broadcast, is_documentation, is_unspecified, is_ipv6_loopback, is_ipv6_multicast,
  is_ipv6_unique_local, is_ipv6_unicast_link_local, is_ipv6_documentation,
}

-- a.b.c.d
abbrev pub ipv4 : ℕ → ℕ → ℕ → ℕ → ℕ
ipv4 a b c d = ((a * 256 + b) * 256 + c) * 256 + d

-- The address lies in the block of 2 ^ bits addresses that begins at `first`.
abbrev pub in_block : ℕ → ℕ × ℕ → Bool
in_block ip (first, bits) = leb first ip && ltb ip (first + 2 ^ bits)

-- 10/8, 172.16/12, 192.168/16, 127/8, 169.254/16, 224/4, 255.255.255.255/32, 192.0.2/24,
-- 198.51.100/24, 203.0.113/24 and 0.0.0.0/32.
abbrev pub blocks4 : List (ℕ × ℕ)
blocks4 =
    (ipv4 10 0 0 0, 24)
    ∷ (ipv4 172 16 0 0, 20)
    ∷ (ipv4 192 168 0 0, 16)
    ∷ (ipv4 127 0 0 0, 24)
    ∷ (ipv4 169 254 0 0, 16)
    ∷ (ipv4 224 0 0 0, 28)
    ∷ (ipv4 255 255 255 255, 0)
    ∷ (ipv4 192 0 2 0, 8)
    ∷ (ipv4 198 51 100 0, 8)
    ∷ (ipv4 203 0 113 0, 8)
    ∷ (0, 0)
    ∷ []

-- ::/127 (:: and ::1), ff00::/8, fc00::/7, fe80::/10 and 2001:db8::/32.
abbrev pub blocks6 : List (ℕ × ℕ)
blocks6 =
    (0, 1)
    ∷ (0xff00 * 2 ^ 112, 120)
    ∷ (0xfc00 * 2 ^ 112, 121)
    ∷ (0xfe80 * 2 ^ 112, 118)
    ∷ (0x2001_0db8 * 2 ^ 96, 96)
    ∷ []

module _ (ip : ℕ) (fits : ip < 2 ^ 32) where
  private-blocks :
      is_private ip
      ≡ in_block ip (ipv4 10 0 0 0, 24)
        || (in_block ip (ipv4 172 16 0 0, 20) || in_block ip (ipv4 192 168 0 0, 16))
  unfolding is_private
  private-blocks = ground arith

  documentation-blocks :
      is_documentation ip
      ≡ in_block ip (ipv4 192 0 2 0, 8)
        || (in_block ip (ipv4 198 51 100 0, 8) || in_block ip (ipv4 203 0 113 0, 8))
  unfolding is_documentation
  documentation-blocks = ground arith

  loopback-block : is_loopback ip ≡ in_block ip (ipv4 127 0 0 0, 24)
  unfolding is_loopback
  loopback-block = ground arith

  link_local-block : is_link_local ip ≡ in_block ip (ipv4 169 254 0 0, 16)
  unfolding is_link_local
  link_local-block = ground arith

  multicast-block : is_multicast ip ≡ in_block ip (ipv4 224 0 0 0, 28)
  unfolding is_multicast
  multicast-block = ground arith

  broadcast-block : is_broadcast ip ≡ in_block ip (ipv4 255 255 255 255, 0)
  unfolding is_broadcast
  broadcast-block = ground arith

  unspecified-block : is_unspecified ip ≡ in_block ip (0, 0)
  unfolding is_unspecified
  unspecified-block = ground arith

  denied-blocks4 : denied (v4 ip) ≡ any (in_block ip) blocks4
  unfolding denied
  denied-blocks4 =
      rw
        (
          private-blocks, documentation-blocks, loopback-block, link_local-block, multicast-block,
          broadcast-block, unspecified-block,
        )
        (simp (or_assoc, or_false))

module _ (ip : ℕ) (fits : ip < 2 ^ 128) where
  low-block : is_ipv6_loopback ip || is_unspecified ip ≡ in_block ip (0, 1)
  unfolding is_ipv6_loopback is_unspecified
  low-block = ground arith

  ipv6_multicast-block : is_ipv6_multicast ip ≡ in_block ip (0xff00 * 2 ^ 112, 120)
  unfolding is_ipv6_multicast
  ipv6_multicast-block = ground arith

  unique_local-block : is_ipv6_unique_local ip ≡ in_block ip (0xfc00 * 2 ^ 112, 121)
  unfolding is_ipv6_unique_local
  unique_local-block = ground (arith, bit_and-0xfe00 (ip / 65536 ^ 7 % 65536))

  unicast_link_local-block : is_ipv6_unicast_link_local ip ≡ in_block ip (0xfe80 * 2 ^ 112, 118)
  unfolding is_ipv6_unicast_link_local
  unicast_link_local-block = ground (arith, bit_and-0xffc0 (ip / 65536 ^ 7 % 65536))

  ipv6_documentation-block : is_ipv6_documentation ip ≡ in_block ip (0x2001_0db8 * 2 ^ 96, 96)
  unfolding is_ipv6_documentation
  ipv6_documentation-block = ground arith

  denied-blocks6 : denied (v6 ip) ≡ any (in_block ip) blocks6
  unfolding denied
  denied-blocks6 = ground (
    arith, low-block, ipv6_multicast-block, unique_local-block, unicast_link_local-block,
    ipv6_documentation-block,
  )

-- The number has its family's width.
abbrev pub IsAddress : IpAddr → Type 0
IsAddress (v4 ip) = ip < 2 ^ 32
IsAddress (v6 ip) = ip < 2 ^ 128

abbrev pub in_blocks : IpAddr → Bool
in_blocks (v4 ip) = any (in_block ip) blocks4
in_blocks (v6 ip) = any (in_block ip) blocks6

pub denied-in_blocks : (ip : IpAddr) → IsAddress ip → denied ip ≡ in_blocks ip
denied-in_blocks (v4 ip) h = denied-blocks4 ip h
denied-in_blocks (v6 ip) h = denied-blocks6 ip h

-- With `deny_private_ip` an address passes exactly when it lies in none of the sixteen blocks
-- (eleven of IPv4, five of IPv6), and without it every address passes.
pub check_ip-in_blocks :
    (p : Policy) (ip : IpAddr)
    → IsAddress ip
    → check_ip p ip ≡ (if p.deny_private && in_blocks ip then err (address_denied ip) else ok tt)
unfolding check_ip
check_ip-in_blocks p ip h = ground (arith, denied-in_blocks ip h)

-- The IPv4-mapped form ::ffff:a.b.c.d of every IPv4 address passes, also where a.b.c.d itself is
-- refused.
pub check_ip-mapped :
    (p : Policy) (a : ℕ) → a < 2 ^ 32 → check_ip p (v6 (0xffff * 2 ^ 32 + a)) ≡ ok tt
check_ip-mapped p a h = check_ip-in_blocks p (v6 (0xffff * 2 ^ 32 + a)) (omega arith) ∙ ground arith
