-- ===== src/Socks/Client.antt =====
-- What a SOCKS5 client sends, and that the proxy reads it back.
use mathlib.Core.List.{append_assoc}
use ech_rust.Base.Text.{Text, Bytes}
use ech_rust.Base.Utf8.RoundTrip.{IsScalar, from_utf8-as_bytes}
use ech_rust.Base.Utf8.{as_bytes}
use ech_rust.Base.{
  ℕ, ◌+◌, ◌*◌, ◌/◌, ◌%◌, ◌<◌, ◌≡◌, refl, ap, ◌∙◌, Bool, true, false, List, [], ◌∷◌, ◌++◌, Option,
  some, none, ok, ◌>>=◌, ltb, ◌==◌, arith, All, length, length-append, take_append, drop_append,
}
use ech_rust.Conn.{Conn}
use ech_rust.Dns.{be16}
use ech_rust.Router.{Names}
use ech_rust.Socks.{
  Step, bail, invalid_credentials, Socks5Options, contains, read_exact, read_u8, read_u16,
  read_socks_string, write_all, choose_method, negotiate_auth, password_user, authenticate,
  read_host, read_target, read_connect_request, session,
}
use ech_rust.Users.{UserProfile, AuthStore}
use ech_rust.Users

-- A length in one byte, and what it counts.
abbrev pub counted : Bytes → Bytes
counted bytes = length bytes % 256 ∷ bytes

abbrev pub hello : Bytes → Bytes
hello methods = 5 ∷ counted methods

abbrev pub login : Text → Text → Bytes
login name password = 1 ∷ (counted (as_bytes name) ++ counted (as_bytes password))

abbrev pub connect_domain : Text → ℕ → Bytes
connect_domain host port = 5 ∷ 1 ∷ 0 ∷ 3 ∷ (counted (as_bytes host) ++ be16 port)

-- A text that fits a counted field.
pub record IsCounted (t : Text) : Type 0 where
  pub scalars : All IsScalar t
  pub fits : length (as_bytes t) < 256

abbrev conn : Bytes → List Bytes → Conn
conn input output = record { input = input; output = output }

abbrev pub never_gone : ℕ → Bool
never_gone n = false

read_exact-append :
    (xs ys : Bytes) (out : List Bytes)
    → read_exact (length xs) (conn (xs ++ ys) out) ≡ ok (xs, conn ys out)
unfolding read_exact
read_exact-append xs ys out =
    let enough : ltb (length (xs ++ ys)) (length xs) ≡ false =
      rw (length-append xs ys) (ground arith) in
    rw (enough, take_append xs ys, drop_append xs ys) refl

read_counted :
    (xs ys : Bytes) (out : List Bytes)
    → length xs < 256
    → read_exact (length xs % 256) (conn (xs ++ ys) out) ≡ ok (xs, conn ys out)
read_counted xs ys out h =
    let small : length xs % 256 ≡ length xs = omega arith in
    ap (λ n. read_exact n (conn (xs ++ ys) out)) small ∙ read_exact-append xs ys out

read_socks_string-counted :
    (t : Text) (ys : Bytes) (out : List Bytes)
    → IsCounted t
    → read_socks_string (conn (counted (as_bytes t) ++ ys) out) ≡ ok (t, conn ys out)
unfolding read_socks_string read_u8
read_socks_string-counted t ys out f =
    rw (read_counted (as_bytes t) ys out f.fits, from_utf8-as_bytes t f.scalars) refl

negotiate_auth-hello :
    (options : Socks5Options) (methods ys : Bytes)
    → length methods < 256
    → options.allow_no_auth ≡ false
    → contains methods 2 ≡ true
    → negotiate_auth never_gone options (conn (hello methods ++ ys) [])
      ≡ ok (2, conn ys ((5 ∷ 2 ∷ []) ∷ []))
unfolding negotiate_auth read_u8 choose_method write_all
negotiate_auth-hello options methods ys h strict offers =
    rw (read_counted methods ys [] h, strict, offers) refl

-- What `password_user` does with the user that the store knows.
abbrev answered : Text → Conn → Option UserProfile → Step UserProfile
answered name c o = elim o [
  | some u ↦ do (_, c3) ← write_all never_gone (1 ∷ 0 ∷ []) c; ok (u, c3)
  | none ↦ do (_, c3) ← write_all never_gone (1 ∷ 1 ∷ []) c; bail (invalid_credentials name) c3
]

authenticate-login :
    (options : Socks5Options) (auth : AuthStore) (u : UserProfile) (name password : Text)
    (ys : Bytes) (out : List Bytes)
    → IsCounted name
    → IsCounted password
    → Users.authenticate auth name password ≡ some u
    → authenticate never_gone options auth 2 (conn (login name password ++ ys) out)
      ≡ ok (u, conn ys (out ++ ((1 ∷ 0 ∷ []) ∷ [])))
unfolding authenticate read_u8 password_user write_all
authenticate-login options auth u name password ys out f g known =
    let apart : (as_bytes name ++ counted (as_bytes password)) ++ ys
        ≡ as_bytes name ++ (counted (as_bytes password) ++ ys) =
      append_assoc (as_bytes name) (counted (as_bytes password)) ys in
    rw
      (
        apart,
        read_socks_string-counted name (counted (as_bytes password) ++ ys) out f,
        read_socks_string-counted password ys out g,
      )
      (ap (answered name (conn ys out)) known)

read_connect_request-connect_domain :
    (names : Names) (host : Text) (port : ℕ) (ys : Bytes) (out : List Bytes)
    → IsCounted host
    → 0 < port
    → port < 65536
    → read_connect_request never_gone names (conn (connect_domain host port ++ ys) out)
      ≡ ok ((host, port), conn ys out)
unfolding read_connect_request read_u8 read_target read_host read_u16
read_connect_request-connect_domain names host port ys out f positive small =
    let apart : (as_bytes host ++ be16 port) ++ ys ≡ as_bytes host ++ (be16 port ++ ys) =
      append_assoc (as_bytes host) (be16 port) ys in
    let whole : (0 * 256 + port / 256 % 256) * 256 + port % 256 ≡ port = omega arith in
    let open_port : (port == 0) ≡ false = ground arith in
    rw
      (
        apart,
        read_socks_string-counted host (be16 port ++ ys) out f,
        read_exact-append (be16 port) ys out,
        whole,
        open_port,
      )
      refl

-- A client that offers to log in, logs in as a known user and asks for a domain and a port, where it
-- must, is read back: the session is that user's for that domain and port, the two replies say that
-- the method and the login are accepted, and nothing behind the request is consumed.
pub session-connect_domain :
    (options : Socks5Options) (auth : AuthStore) (names : Names) (u : UserProfile) (methods : Bytes)
    (name password host : Text) (port : ℕ) (rest : Bytes)
    → options.allow_no_auth ≡ false
    → contains methods 2 ≡ true
    → length methods < 256
    → IsCounted name
    → IsCounted password
    → IsCounted host
    → 0 < port
    → port < 65536
    → Users.authenticate auth name password ≡ some u
    → session never_gone options auth names (record {
      input = hello methods ++ (login name password ++ (connect_domain host port ++ rest));
      output = [];
    })
      ≡ ok ((u, host, port), record { input = rest; output = (5 ∷ 2 ∷ []) ∷ (1 ∷ 0 ∷ []) ∷ [] })
unfolding session
session-connect_domain options auth names u methods name password host port rest strict offers few f
      g h positive small known =
    rw
      (
        negotiate_auth-hello options methods
            (login name password ++ (connect_domain host port ++ rest)) few strict offers,
        authenticate-login options auth u name password (connect_domain host port ++ rest)
            ((5 ∷ 2 ∷ []) ∷ []) f g known,
        read_connect_request-connect_domain names host port rest ((5 ∷ 2 ∷ []) ∷ (1 ∷ 0 ∷ []) ∷ [])
            h positive small,
      )
      refl
