-- ===== src/Http/Targets.antt =====
-- The authorities that `parse_authority` of client/src/ingress_http.rs reads.
use mathlib.Core.List.{append-nil}
use ech_rust.Base.Parse.Decimal.{decimal_nonempty, all-decimal, parse_u16-decimal}
use ech_rust.Base.Parse.Splits.{holds, split_once-append, rsplit_once-none, rsplit_once-append}
use ech_rust.Base.Text.{
  Text, is_empty, is_ascii_digit, is_ascii_whitespace, strip_prefix, rsplit_once, decimal,
}
use ech_rust.Base.{
  ℕ, ◌<◌, ◌≡◌, refl, true, false, [], ◌∷◌, ◌++◌, Option, none, some, ok, arith, any, all,
  any-append, unwrap_or, ◌==◌,
}
use ech_rust.Http.Authority.{parse_authority, parse_bracketed, ipv6_port, parse_plain, host_port}

-- `host:port` and `[host]:port`, each with or without the port.
pub data Authority : Type 0 where
  plain bracketed : Text → Option ℕ → Authority

abbrev pub host_of : Authority → Text
host_of (plain host port) = host
host_of (bracketed host port) = host

abbrev pub port_of : Authority → Option ℕ
port_of (plain host port) = port
port_of (bracketed host port) = port

abbrev pub show_port : Option ℕ → Text
show_port none = []
show_port (some port) = b':' ∷ decimal port

abbrev pub show : Authority → Text
show (plain host port) = host ++ show_port port
show (bracketed host port) = b'[' ∷ (host ++ (b']' ∷ show_port port))

abbrev pub PlainPort : Text → Option ℕ → Type 0
PlainPort host none = holds b':' host ≡ false
PlainPort host (some p) = (0 < p) × (p < 65536)

abbrev pub PortFits : Option ℕ → Type 0
PortFits none = Unit
PortFits (some p) = p < 65536

-- What a host without brackets may be, and which ports fit.
abbrev pub IsAuthority : Authority → Type 0
IsAuthority (plain host port) =
    (is_empty host ≡ false)
    × (holds b'@' host ≡ false)
    × (any is_ascii_whitespace host ≡ false)
    × (strip_prefix (b'[' ∷ []) host ≡ none)
    × PlainPort host port
IsAuthority (bracketed host port) =
    (holds b'@' host ≡ false) × (holds b']' host ≡ false) × PortFits port

digits-hold-no :
    (c : ℕ) (s : Text) → is_ascii_digit c ≡ false → all is_ascii_digit s ≡ true → holds c s ≡ false
digits-hold-no c [] h k = refl
digits-hold-no c (d ∷ ds) h k = ground (arith, digits-hold-no c ds h)

show_port-no_at : (port : Option ℕ) → holds b'@' (show_port port) ≡ false
show_port-no_at none = refl
show_port-no_at (some p) = digits-hold-no b'@' (decimal p) refl (all-decimal p)

ipv6_port-show :
    (port : Option ℕ) (d : ℕ) → PortFits port → ipv6_port (show_port port) d ≡ ok (unwrap_or port d)
unfolding ipv6_port strip_prefix
ipv6_port-show none d h = refl
ipv6_port-show (some p) d h = rw (parse_u16-decimal p h) refl

host_port-show :
    (host : Text) (port : Option ℕ) (d : ℕ)
    → PlainPort host port
    → host_port (host ++ show_port port) (rsplit_once b':' (host ++ show_port port)) d
      ≡ ok (host, unwrap_or port d)
unfolding host_port
host_port-show host none d h =
    let whole : host ++ [] ≡ host = append-nil host in rw (whole, rsplit_once-none b':' host h) refl
host_port-show host (some p) d h =
    rw
      (
        rsplit_once-append b':' host (decimal p)
            (digits-hold-no b':' (decimal p) refl (all-decimal p)),
        decimal_nonempty p,
        all-decimal p,
        parse_u16-decimal p h.1,
      )
      refl

no_bracket-append :
    (host rest : Text)
    → is_empty host ≡ false
    → strip_prefix (b'[' ∷ []) host ≡ none
    → strip_prefix (b'[' ∷ []) (host ++ rest) ≡ none
unfolding strip_prefix
no_bracket-append [] rest h k = cc
no_bracket-append (c ∷ cs) rest h k = ground arith

port_pos :
    (host : Text) (port : Option ℕ) (d : ℕ)
    → 0 < d
    → PlainPort host port
    → (unwrap_or port d == 0) ≡ false
port_pos host none d h k = ground arith
port_pos host (some p) d h k = ground arith

is_empty-append : (xs ys : Text) → is_empty xs ≡ false → is_empty (xs ++ ys) ≡ false
is_empty-append [] ys h = cc
is_empty-append (x ∷ xs) ys h = refl

-- A printed authority is read back: `host:port` for a host with no bracket in front, no `@`, no
-- white space and a port from 1 to 65535, and `[host]:port` for any host without `@` and closing
-- bracket, an empty one included, and any port up to 65535, 0 included; where no port is printed
-- (and a plain host has no colon) it is the default, which is positive.
pub parse_authority-show :
    (a : Authority) (d : ℕ)
    → 0 < d
    → IsAuthority a
    → parse_authority (show a) d ≡ ok (host_of a, unwrap_or (port_of a) d)
unfolding parse_authority parse_plain parse_bracketed strip_prefix
parse_authority-show (plain host port) d pos (some_host, no_at, clean, no_bracket, port_ok) =
    rw
      (
        is_empty-append host (show_port port) some_host,
        any-append (λ c. c == b'@') host (show_port port),
        no_at,
        show_port-no_at port,
        no_bracket-append host (show_port port) some_host no_bracket,
        host_port-show host port d port_ok,
        some_host,
        port_pos host port d pos port_ok,
        clean,
      )
      refl
parse_authority-show (bracketed host port) d pos (no_at, no_close, fits) =
    rw
      (
        any-append (λ c. c == b'@') host (b']' ∷ show_port port),
        no_at,
        show_port-no_at port,
        split_once-append b']' host (show_port port) no_close,
        ipv6_port-show port d fits,
      )
      refl
