-- ===== src/Socks/Typed.antt =====
-- The types of what the SOCKS5 proxy reads and writes: bytes, characters and port numbers.
pub mod Negotiation
pub mod Requests
use ech_rust.Base.Net.{IpAddr, v4, v6}
use ech_rust.Base.Text.{Text, Bytes}
use ech_rust.Base.Utf8.RoundTrip.{IsScalar}
use ech_rust.Base.Utf8.Scalars.{from_utf8-All}
use ech_rust.Base.Utf8.{from_utf8}
use ech_rust.Base.{
  ℕ, zero, suc, ◌+◌, ◌*◌, ◌≤◌, ◌<◌, ◌≡◌, refl, inl, inr, Bool, true, false, not, ◌&&◌, ◌||◌, List,
  [], ◌∷◌, ◌++◌, Option, none, some, ok, err, ◌>>=◌, ltb, ◌==◌, if◌then◌else◌, length, take, drop,
  all, All, All-append, arith, Bool-cases,
}
use ech_rust.Conn.{Conn}
use ech_rust.Dns.{from_be}
use ech_rust.Router.{Names}
use ech_rust.Socks.{
  Socks5Options, SocksError, Stop, Step, bail, or_bail, contains, unexpected_eof, write_failed,
  no_acceptable_method, unsupported_version, no_default_user, unknown_user, invalid_credentials,
  unsupported_auth_version, unsupported_address, port_zero, invalid_header, unsupported_command,
  not_utf8, read_exact, read_u8, read_u16, read_socks_string, write_all, send_reply, choose_method,
  negotiate_auth, no_auth_user, password_user, authenticate, read_host, read_target,
  read_connect_request, session,
}
use ech_rust.Users.{UserProfile, AuthStore, user}
use ech_rust.Users

-- An octet.
abbrev pub IsByte : ℕ → Type 0
IsByte b = b < 256

-- What is still to be read and what was written are octets.
abbrev pub IsConn : Conn → Type 0
IsConn c = All IsByte c.input × All (All IsByte) c.output

-- The connection stays one of octets, whether the step succeeds or not.
abbrev pub Typed : {A : Type 0} → (A → Type 0) → Step A → Type 0
Typed P (ok (a, c)) = P a × IsConn c
Typed P (err e) = IsConn e.conn

abbrev pub Anything : {A : Type 0} → A → Type 0
Anything a = Unit

pub Typed->>= :
    {A B : Type 0} (P : A → Type 0) (Q : B → Type 0) (run : Step A) (k : A × Conn → Step B)
    → Typed P run
    → ((a : A) (c : Conn) → P a → IsConn c → Typed Q (k (a, c)))
    → Typed Q (run >>= k)
Typed->>= P Q (ok (a, c)) k h step = step a c h.0 h.1
Typed->>= P Q (err e) k h step = h

pub Typed-or_bail :
    {A : Type 0} (P : A → Type 0) (e : SocksError) (o : Option A) (c : Conn)
    → ((a : A) → o ≡ some a → P a)
    → IsConn c
    → Typed P (or_bail e o c)
Typed-or_bail P e none c h k = k
Typed-or_bail P e (some a) c h k = (h a refl, k)

All-take : {A : Type 0} (P : A → Type 0) (n : ℕ) (xs : List A) → All P xs → All P (take n xs)
All-take P zero xs h = tt
All-take P (suc n) [] h = tt
All-take P (suc n) (x ∷ xs) h = (h.0, All-take P n xs h.1)

All-drop : {A : Type 0} (P : A → Type 0) (n : ℕ) (xs : List A) → All P xs → All P (drop n xs)
All-drop P zero xs h = h
All-drop P (suc n) [] h = tt
All-drop P (suc n) (x ∷ xs) h = All-drop P n xs h.1

length-take : {A : Type 0} (n : ℕ) (xs : List A) → n ≤ length xs → length (take n xs) ≡ n
length-take zero xs h = refl
length-take (suc n) [] h = absurd (omega arith)
length-take (suc n) (x ∷ xs) h = ground (arith, length-take n xs)

pub read_exact-Typed :
    (n : ℕ) (c : Conn)
    → IsConn c
    → Typed (λ bytes. All IsByte bytes × (length bytes ≡ n)) (read_exact n c)
unfolding read_exact
read_exact-Typed n c h = elim (Bool-cases (ltb (length c.input) n)) [
  | inl short ↦ rw short (tt, h.1)
  | inr enough ↦ rw enough (
    (All-take IsByte n c.input h.0, length-take n c.input (ground arith)),
    (All-drop IsByte n c.input h.0, h.1),
  )
]

pub read_u8-Typed : (c : Conn) → IsConn c → Typed IsByte (read_u8 c)
unfolding read_u8
read_u8-Typed c h = go c.input h.0
  where
    go :
        (input : Bytes)
        → All IsByte input
        → Typed IsByte
            (elim input [ [] ↦ bail unexpected_eof c | b ∷ bs ↦ ok (b, record c { input = bs }) ])
    go [] k = h
    go (b ∷ bs) k = (k.0, (k.1, h.1))

from_be-two : (bytes : Bytes) → All IsByte bytes → length bytes ≡ 2 → from_be 0 bytes < 0x1_0000
from_be-two [] h k = absurd (omega arith)
from_be-two (a ∷ []) h k = absurd (omega arith)
from_be-two (a ∷ b ∷ []) (h, (j, _)) k = omega arith
from_be-two (a ∷ b ∷ c ∷ bs) h k = absurd (omega arith)

pub read_u16-Typed : (c : Conn) → IsConn c → Typed (λ n. n < 0x1_0000) (read_u16 c)
unfolding read_u16
read_u16-Typed c h =
    Typed->>= _ _ (read_exact 2 c) _ (read_exact-Typed 2 c h)
      (λ bytes c1 read h1. (from_be-two bytes read.0 read.1, h1))

pub read_socks_string-Typed : (c : Conn) → IsConn c → Typed (All IsScalar) (read_socks_string c)
unfolding read_socks_string
read_socks_string-Typed c h = Typed->>= _ _ (read_u8 c) _ (read_u8-Typed c h) (λ len c1 _ h1.
    Typed->>= _ _ (read_exact len c1) _ (read_exact-Typed len c1 h1)
      (λ buf c2 _ h2. Typed-or_bail _ not_utf8 (from_utf8 buf) c2 (from_utf8-All buf) h2))

pub octets : (bytes : Bytes) → all (λ b. ltb b 256) bytes ≡ true → All IsByte bytes
octets [] h = tt
octets (b ∷ bs) h = (ground arith, octets bs (ground arith))

module _ (gone : ℕ → Bool) where
  pub write_all-Typed :
      (bytes : Bytes) (c : Conn)
      → All IsByte bytes
      → IsConn c
      → Typed Anything (write_all gone bytes c)
  unfolding write_all
  write_all-Typed bytes c k h = elim (Bool-cases (gone (length c.output))) [
    | inl lost ↦ rw lost h
    | inr sent ↦ rw sent (tt, (h.0, All-append (All IsByte) c.output (bytes ∷ []) h.1 (k, tt)))
  ]

  pub send_reply-IsConn :
      (reply : ℕ) (c : Conn) → IsByte reply → IsConn c → IsConn (send_reply gone reply c)
  unfolding send_reply
  send_reply-IsConn reply c k h = elim (Bool-cases (gone (length c.output))) [
    | inl lost ↦ rw lost h
    | inr sent ↦ rw sent (
      h.0,
      All-append (All IsByte) c.output _ h.1
          ((omega arith, (k, octets (0 ∷ 1 ∷ 0 ∷ 0 ∷ 0 ∷ 0 ∷ 0 ∷ 0 ∷ []) refl)), tt),
    )
  ]
