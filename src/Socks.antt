-- ===== src/Socks.antt =====
-- client/src/ingress_socks5.rs: the SOCKS5 proxy, up to where it relays.
pub mod Session
pub mod Client
pub mod Relays
pub mod Typed
use ech_rust.Base.Net.{IpAddr, v4, v6}
use ech_rust.Base.Text.{Text, Bytes}
use ech_rust.Base.{
  ℕ, zero, suc, ◌+◌, ◌*◌, ◌≤◌, Bool, true, false, not, ◌&&◌, ◌||◌, List, [], ◌∷◌, ◌++◌, Option,
  none, some, Result, ok, err, ◌>>=◌, ◌>>◌, ok_or, ltb, ◌==◌, any, if◌then◌else◌, length, take,
  drop,
}
use ech_rust.Conn.{Conn}
use ech_rust.Base.Utf8.{from_utf8}
use ech_rust.Dns.{from_be}
use ech_rust.Pool.{BackendPool}
use ech_rust.Router.{Names, Router, RouteError, RouteDecision, direct, proxy, decide}
use ech_rust.Users.{UserProfile, AuthStore, user}
use ech_rust.Users

pub record Socks5Options : Type 0 where
  pub allow_no_auth : Bool
  pub default_user : Option Text

pub data SocksError : Type 0 where
  unexpected_eof write_failed : SocksError
  unsupported_version unsupported_auth_version : ℕ → SocksError
  unsupported_command unsupported_address : ℕ → SocksError
  no_acceptable_method no_default_user invalid_header port_zero : SocksError
  unknown_user invalid_credentials : Text → SocksError
  not_utf8 : SocksError
  routing : RouteError → SocksError
  direct_failed : Text → SocksError

-- A connection that ended with an error, and what was written to it until then.
pub record Stop : Type 0 where
  pub reason : SocksError
  pub conn : Conn

abbrev pub Step : Type 0 → Type 0
Step A = Result Stop (A × Conn)

abbrev pub bail : {A : Type 0} → SocksError → Conn → Step A
bail e c = err (record { reason = e; conn = c })

-- `context(e)?`
abbrev pub or_bail : {A : Type 0} → SocksError → Option A → Conn → Step A
or_bail e none c = bail e c
or_bail e (some a) c = ok (a, c)

-- `read_exact`; what was read before the end is lost.
pub read_exact : ℕ → Conn → Step Bytes
read_exact n c =
    if ltb (length c.input) n
    then bail unexpected_eof (record c { input = [] })
    else ok (take n c.input, record c { input = drop n c.input })

pub read_u8 : Conn → Step ℕ
read_u8 c = elim c.input [ [] ↦ bail unexpected_eof c | b ∷ bs ↦ ok (b, record c { input = bs }) ]

pub read_u16 : Conn → Step ℕ
unfolding read_exact
read_u16 c = do (bytes, c1) ← read_exact 2 c; ok (from_be 0 bytes, c1)

abbrev pub contains : List ℕ → ℕ → Bool
contains methods m = any (λ x. x == m) methods

pub read_socks_string : Conn → Step Text
unfolding read_u8 read_exact
read_socks_string c = do
  (len, c1) ← read_u8 c
  (buf, c2) ← read_exact len c1
  or_bail not_utf8 (from_utf8 buf) c2

-- What is relayed with: a direct stream, or the pool with the target.
pub data Relay (C : Type 0) : Type 0 where
  relay_direct : Text → ℕ → Relay C
  relay_grpc : BackendPool C → Text → ℕ → Relay C

-- `gone n` says that the n-th write fails.
module _ (gone : ℕ → Bool) where
  pub write_all : Bytes → Conn → Step (Unit {0})
  write_all bytes c =
      if gone (length c.output)
      then bail write_failed c
      else ok (tt, record c { output = c.output ++ (bytes ∷ []) })

  -- A reply that cannot be written is only logged.
  pub send_reply : ℕ → Conn → Conn
  send_reply reply c =
      if gone (length c.output)
      then c
      else record c { output = c.output ++ ((5 ∷ reply ∷ 0 ∷ 1 ∷ 0 ∷ 0 ∷ 0 ∷ 0 ∷ 0 ∷ 0 ∷ []) ∷ []) }

  pub choose_method : Socks5Options → List ℕ → Conn → Step ℕ
  unfolding write_all
  choose_method options methods c =
      if options.allow_no_auth && contains methods 0
      then (do (_, c1) ← write_all (5 ∷ 0 ∷ []) c; ok (0, c1))
      else if contains methods 2
      then (do (_, c1) ← write_all (5 ∷ 2 ∷ []) c; ok (2, c1))
      else (do (_, c1) ← write_all (5 ∷ 0xff ∷ []) c; bail no_acceptable_method c1)

  pub negotiate_auth : Socks5Options → Conn → Step ℕ
  unfolding read_u8 read_exact choose_method
  negotiate_auth options c = do
    (version, c1) ← read_u8 c
    if not (version == 5) then bail (unsupported_version version) c1 else (do
      (methods_len, c2) ← read_u8 c1
      (methods, c3) ← read_exact methods_len c2
      choose_method options methods c3)

  pub no_auth_user : Socks5Options → AuthStore → Conn → Step UserProfile
  no_auth_user options auth c = do
    (name, c1) ← or_bail no_default_user options.default_user c
    or_bail (unknown_user name) (user auth name) c1

  pub password_user : AuthStore → Conn → Step UserProfile
  unfolding read_u8 read_socks_string write_all
  password_user auth c = do
    (username, c1) ← read_socks_string c
    (password, c2) ← read_socks_string c1
    elim (Users.authenticate auth username password) [
      | some u ↦ do (_, c3) ← write_all (1 ∷ 0 ∷ []) c2; ok (u, c3)
      | none ↦ do (_, c3) ← write_all (1 ∷ 1 ∷ []) c2; bail (invalid_credentials username) c3
    ]

  pub authenticate : Socks5Options → AuthStore → ℕ → Conn → Step UserProfile
  unfolding read_u8 write_all no_auth_user password_user
  authenticate options auth method c = if method == 0 then no_auth_user options auth c else (do
    (version, c1) ← read_u8 c
    if not (version == 1)
        then (do (_, c2) ← write_all (1 ∷ 1 ∷ []) c1; bail (unsupported_auth_version version) c2)
        else password_user auth c1)

  pub read_host : Names → ℕ → Conn → Step Text
  unfolding read_u8 read_exact read_socks_string
  read_host names atyp c =
      if atyp == 1
      then (do (buf, c1) ← read_exact 4 c; ok (names.show_ip (v4 (from_be 0 buf)), c1))
      else if atyp == 3
      then read_socks_string c
      else if atyp == 4
      then (do (buf, c1) ← read_exact 16 c; ok (names.show_ip (v6 (from_be 0 buf)), c1))
      else bail (unsupported_address atyp) (send_reply 8 c)

  pub read_target : Names → ℕ → Conn → Step (Text × ℕ)
  unfolding read_host read_u16 send_reply
  read_target names atyp c = do
    (host, c1) ← read_host names atyp c
    (port, c2) ← read_u16 c1
    if port == 0 then bail port_zero (send_reply 4 c2) else ok ((host, port), c2)

  pub read_connect_request : Names → Conn → Step (Text × ℕ)
  unfolding read_u8 send_reply read_target
  read_connect_request names c = do
    (version, c1) ← read_u8 c
    (command, c2) ← read_u8 c1
    (reserved, c3) ← read_u8 c2
    (atyp, c4) ← read_u8 c3
    if not (version == 5) || not (reserved == 0)
        then bail invalid_header c4
        else if not (command == 1)
        then bail (unsupported_command command) (send_reply 7 c4)
        else read_target names atyp c4

  -- The first half of `handle`: the user with the host and the port that are asked for.
  unfoldable pub session : Socks5Options → AuthStore → Names → Conn → Step (UserProfile × Text × ℕ)
  unfolding negotiate_auth authenticate read_connect_request
  session options auth names c = do
    (method, c1) ← negotiate_auth options c
    (u, c2) ← authenticate options auth method c1
    ((host, port), c3) ← read_connect_request names c2
    ok ((u, host, port), c3)

  -- The second half of `handle`; `connect_direct` gives the error of the direct connection.
  unfoldable pub connect_target :
      {C : Type 0}
      → (Text → ℕ → Option Text)
      → Names
      → Router C
      → UserProfile
      → Text
      → ℕ
      → Conn
      → Step (Relay C)
  unfolding send_reply
  connect_target connect_direct names router u host port c =
      elim (decide names router u host port) [
        | err e ↦ bail (routing e) c
        | ok (proxy pool) ↦ ok (relay_grpc pool host port, send_reply 0 c)
        | ok (direct connect_host) ↦ elim (connect_direct connect_host port) [
          | some e ↦ bail (direct_failed e) (send_reply 5 c)
          | none ↦ ok (relay_direct connect_host port, send_reply 0 c)
        ]
      ]

  unfoldable pub handle :
      {C : Type 0}
      → (Text → ℕ → Option Text)
      → Socks5Options
      → AuthStore
      → Names
      → Router C
      → Conn
      → Step (Relay C)
  unfolding session connect_target
  handle connect_direct options auth names router c = do
    ((u, host, port), c1) ← session options auth names c
    connect_target connect_direct names router u host port c1
