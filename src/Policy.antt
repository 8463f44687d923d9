-- ===== src/Policy.antt =====
-- server/src/policy.rs: which targets the relay may open.
pub mod Blocks
pub mod Resolve
use Prim.Native.Nat.{bit_and}
use ech_rust.Base.Net.{IpAddr, v4, v6, SocketAddr}
use ech_rust.Base.Text.{Text, Bytes, is_empty, utf8_len, is_ascii_whitespace, decimal, codes}
use ech_rust.Base.{
  ℕ, ◌+◌, ◌-◌, ◌*◌, ◌/◌, ◌%◌, ◌^◌, Bool, true, false, not, ◌&&◌, ◌||◌, List, [], ◌∷◌, ◌++◌, Option,
  none, some, Result, ok, err, ◌>>=◌, ◌>>◌, guard, ltb, leb, ◌==◌, if◌then◌else◌, any,
}

pub record PolicyConfig : Type 0 where
  pub connect_timeout_ms : ℕ
  pub idle_timeout_secs : ℕ
  pub max_concurrent_streams : ℕ
  pub deny_private_ip : Bool
  pub allowed_ports : List ℕ

-- Without a list of ports every port is allowed.
pub record Policy : Type 0 where
  pub connect_timeout : ℕ
  pub deny_private : Bool
  pub ports : Option (List ℕ)

pub data PolicyError : Type 0 where
  invalid_host invalid_port no_addresses : PolicyError
  port_denied : ℕ → PolicyError
  address_denied : IpAddr → PolicyError
  resolve_failed : Text → PolicyError

-- `bail!("allowed_ports must not contain 0")`
pub data ConfigError : Type 0 where
  port_zero : ConfigError

unfoldable pub from_config : PolicyConfig → Result ConfigError Policy
from_config config = do
  guard (not (any (λ port. port == 0) config.allowed_ports)) port_zero
  ok (record {
    connect_timeout = config.connect_timeout_ms;
    deny_private = config.deny_private_ip;
    ports = if is_empty config.allowed_ports then none else some config.allowed_ports;
  })

-- The octets of an IPv4 address and the 16-bit segments of an IPv6 address.
abbrev pub octet : ℕ → ℕ → ℕ
octet i ip = ip / 256 ^ i % 256

abbrev pub segment : ℕ → ℕ → ℕ
segment i ip = ip / 65536 ^ i % 65536

-- The predicates of `Ipv4Addr`, on the octets a.b.c.d.
unfoldable pub is_private : ℕ → Bool
is_private ip =
    octet 3 ip == 10
    || (octet 3 ip == 172 && leb 16 (octet 2 ip) && leb (octet 2 ip) 31)
    || (octet 3 ip == 192 && octet 2 ip == 168)

unfoldable pub is_loopback : ℕ → Bool
is_loopback ip = octet 3 ip == 127

unfoldable pub is_link_local : ℕ → Bool
is_link_local ip = octet 3 ip == 169 && octet 2 ip == 254

unfoldable pub is_multicast : ℕ → Bool
is_multicast ip = leb 224 (octet 3 ip) && leb (octet 3 ip) 239

unfoldable pub is_broadcast : ℕ → Bool
is_broadcast ip = ip == 2 ^ 32 - 1

unfoldable pub is_documentation : ℕ → Bool
is_documentation ip =
    (octet 3 ip == 192 && octet 2 ip == 0 && octet 1 ip == 2)
    || (octet 3 ip == 198 && octet 2 ip == 51 && octet 1 ip == 100)
    || (octet 3 ip == 203 && octet 2 ip == 0 && octet 1 ip == 113)

unfoldable pub is_unspecified : ℕ → Bool
is_unspecified ip = ip == 0

pub is_ipv6_loopback : ℕ → Bool
is_ipv6_loopback ip = ip == 1

-- `Ipv6Addr::is_multicast`: the first octet is 0xff.
pub is_ipv6_multicast : ℕ → Bool
is_ipv6_multicast ip = segment 7 ip / 256 == 0xff

pub is_ipv6_unique_local : ℕ → Bool
is_ipv6_unique_local ip = bit_and (segment 7 ip) 0xfe00 == 0xfc00

pub is_ipv6_unicast_link_local : ℕ → Bool
is_ipv6_unicast_link_local ip = bit_and (segment 7 ip) 0xffc0 == 0xfe80

pub is_ipv6_documentation : ℕ → Bool
is_ipv6_documentation ip = segment 7 ip == 0x2001 && segment 6 ip == 0x0db8

unfoldable pub denied : IpAddr → Bool
denied (v4 ip) =
    is_private ip
    || is_loopback ip
    || is_link_local ip
    || is_multicast ip
    || is_broadcast ip
    || is_documentation ip
    || is_unspecified ip
denied (v6 ip) =
    is_ipv6_loopback ip
    || is_ipv6_multicast ip
    || is_unspecified ip
    || is_ipv6_unique_local ip
    || is_ipv6_unicast_link_local ip
    || is_ipv6_documentation ip

unfoldable pub check_ip : Policy → IpAddr → Result PolicyError (Unit {0})
check_ip p ip =
    if not p.deny_private then ok tt else if denied ip then err (address_denied ip) else ok tt

abbrev pub check_connected_addr : Policy → SocketAddr → Result PolicyError (Unit {0})
check_connected_addr p addr = check_ip p addr.ip

-- The bytes that no host may hold. All of them are ASCII, so they are characters as well.
abbrev pub is_forbidden : ℕ → Bool
is_forbidden c = c == 0 || c == b'/' || c == b'\\' || c == b'@' || is_ascii_whitespace c

unfoldable pub validate_host : Text → Result PolicyError (Unit {0})
validate_host host =
    if is_empty host || ltb 253 (utf8_len host)
    then err invalid_host
    else if any is_forbidden host
    then err invalid_host
    else ok tt

-- `for addr in &addrs { self.check_ip(addr.ip())?; }`
unfoldable pub check_addrs : Policy → List SocketAddr → Result PolicyError (Unit {0})
check_addrs p [] = ok tt
check_addrs p (addr ∷ addrs) = do check_ip p addr.ip; check_addrs p addrs

unfoldable pub check_port : Policy → ℕ → Result PolicyError (Unit {0})
check_port p port = elim p.ports [
  | none ↦ ok tt
  | some allowed ↦ guard (any (λ q. q == port) allowed) (port_denied port)
]

-- The system around the policy: `str::parse::<IpAddr>`, and `to_socket_addrs` on "host:port".
pub record Resolver : Type 0 where
  pub parse_ip : Text → Option IpAddr
  pub to_socket_addrs : Text → Result Text (List SocketAddr)

abbrev pub resolve_error {ℓ} : {A : Type ℓ} → Result Text A → Result PolicyError A
resolve_error (ok a) = ok a
resolve_error (err e) = err (resolve_failed e)

unfoldable pub lookup_addrs : Resolver → Text → ℕ → Result PolicyError (List SocketAddr)
lookup_addrs r host port = elim (r.parse_ip host) [
  | some ip ↦ ok (record { ip = ip; port = port } ∷ [])
  | none ↦ resolve_error (r.to_socket_addrs (host ++ (b':' ∷ decimal port)))
]

unfoldable pub resolve_target : Resolver → Policy → Text → ℕ → Result PolicyError (List SocketAddr)
resolve_target r p host port = do
  guard (ltb port 65536) invalid_port
  guard (not (port == 0)) invalid_port
  check_port p port
  validate_host host
  addrs ← lookup_addrs r host port
  guard (not (is_empty addrs)) no_addresses
  check_addrs p addrs
  ok addrs
