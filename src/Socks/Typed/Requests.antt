-- ===== src/Socks/Typed/Requests.antt =====
-- The types of the target that is asked for, and of what is relayed to.
use ech_rust.Base.Net.{IpAddr, v4, v6}
use ech_rust.Base.Text.{Text}
use ech_rust.Base.Utf8.RoundTrip.{IsScalar}
use ech_rust.Base.{
  ℕ, ◌<◌, inl, inr, Bool, true, false, not, ◌||◌, Option, none, some, Result, ok, err, ◌>>=◌, ◌==◌,
  if◌then◌else◌, All, arith, Bool-cases, Holds,
}
use ech_rust.Conn.{Conn}
use ech_rust.Dns.{from_be}
use ech_rust.Router.Hosts.{DirectTo, decide-DirectTo}
use ech_rust.Router.{Names, Router, RouteError, RouteDecision, direct, proxy, decide}
use ech_rust.Socks.Typed.Negotiation.{negotiate_auth-Typed, authenticate-Typed}
use ech_rust.Socks.Typed.{
  IsConn, Typed, Typed->>=, read_exact-Typed, read_u8-Typed, read_u16-Typed,
  read_socks_string-Typed, send_reply-IsConn,
}
use ech_rust.Socks.{
  Socks5Options, Relay, relay_direct, relay_grpc, bail, unsupported_address, invalid_header,
  routing, direct_failed, unsupported_command, read_exact, read_u8, read_u16, read_socks_string,
  send_reply, connect_target, handle, negotiate_auth, authenticate, read_host, read_target,
  read_connect_request, session,
}
use ech_rust.Users.{UserProfile, AuthStore}

-- A host of characters and a port that a socket can have.
abbrev pub IsTarget : Text → ℕ → Type 0
IsTarget host port = All IsScalar host × (0 < port) × (port < 0x1_0000)

module _ (gone : ℕ → Bool) (names : Names)
    (shows : (ip : IpAddr) → All IsScalar (names.show_ip ip)) where
  read_host-Typed :
      (atyp : ℕ) (c : Conn) → IsConn c → Typed (All IsScalar) (read_host gone names atyp c)
  unfolding read_host
  read_host-Typed atyp c h = go (atyp == 1) (atyp == 3) (atyp == 4)
    where
      go :
          (a b d : Bool)
          → Typed (All IsScalar) (
              if a
              then (do (buf, c1) ← read_exact 4 c; ok (names.show_ip (v4 (from_be 0 buf)), c1))
              else if b
              then read_socks_string c
              else if d
              then (do (buf, c1) ← read_exact 16 c; ok (names.show_ip (v6 (from_be 0 buf)), c1))
              else bail (unsupported_address atyp) (send_reply gone 8 c))
      go true b d =
          Typed->>= _ _ (read_exact 4 c) _ (read_exact-Typed 4 c h)
            (λ buf c1 _ h1. (shows (v4 (from_be 0 buf)), h1))
      go false true d = read_socks_string-Typed c h
      go false false true =
          Typed->>= _ _ (read_exact 16 c) _ (read_exact-Typed 16 c h)
            (λ buf c1 _ h1. (shows (v6 (from_be 0 buf)), h1))
      go false false false = send_reply-IsConn gone 8 c (omega arith) h

  read_target-Typed :
      (atyp : ℕ) (c : Conn)
      → IsConn c
      → Typed (λ t. IsTarget t.0 t.1) (read_target gone names atyp c)
  unfolding read_target
  read_target-Typed atyp c h =
      Typed->>= _ _ (read_host gone names atyp c) _ (read_host-Typed atyp c h)
        (λ host c1 scalars h1.
          Typed->>= _ _ (read_u16 c1) _ (read_u16-Typed c1 h1) (λ port c2 small h2.
            elim (Bool-cases (port == 0)) [
              | inl nil ↦ rw nil (send_reply-IsConn gone 4 c2 (omega arith) h2)
              | inr some_port ↦ rw some_port ((scalars, ground arith, small), h2)
            ]))

  read_connect_request-Typed :
      (c : Conn) → IsConn c → Typed (λ t. IsTarget t.0 t.1) (read_connect_request gone names c)
  unfolding read_connect_request
  read_connect_request-Typed c h =
      Typed->>= _ _ (read_u8 c) _ (read_u8-Typed c h) (λ version c1 _ h1.
        Typed->>= _ _ (read_u8 c1) _ (read_u8-Typed c1 h1) (λ command c2 _ h2.
          Typed->>= _ _ (read_u8 c2) _ (read_u8-Typed c2 h2) (λ reserved c3 _ h3.
            Typed->>= _ _ (read_u8 c3) _ (read_u8-Typed c3 h3) (λ atyp c4 _ h4.
              go command atyp c4 (not (version == 5) || not (reserved == 0)) (not (command == 1))
                h4))))
    where
      go :
          (command atyp : ℕ) (c4 : Conn) (a b : Bool)
          → IsConn c4
          → Typed
              (λ t. IsTarget t.0 t.1)
              (if a
                then bail {A = Text × ℕ} invalid_header c4
                else if b
                then bail (unsupported_command command) (send_reply gone 7 c4)
                else read_target gone names atyp c4)
      go command atyp c4 true b h4 = h4
      go command atyp c4 false true h4 = send_reply-IsConn gone 7 c4 (omega arith) h4
      go command atyp c4 false false h4 = read_target-Typed atyp c4 h4

  session-Typed :
      (options : Socks5Options) (auth : AuthStore) (c : Conn)
      → IsConn c
      → Typed (λ r. IsTarget r.1 r.2) (session gone options auth names c)
  unfolding session
  session-Typed options auth c h =
      Typed->>= _ _ (negotiate_auth gone options c) _ (negotiate_auth-Typed gone options c h)
        (λ method c1 _ h1.
          Typed->>= _ _ (authenticate gone options auth method c1) _
            (authenticate-Typed gone options auth method c1 h1)
            (λ u c2 _ h2.
              Typed->>= _ _ (read_connect_request gone names c2) _
                (read_connect_request-Typed c2 h2) (λ target c3 typed h3. (typed, h3))))

-- What is relayed to is a target.
abbrev pub RelayTyped : {C : Type 0} → Relay C → Type 0
RelayTyped (relay_direct host port) = IsTarget host port
RelayTyped (relay_grpc pool host port) = IsTarget host port

connect_target-Typed :
    {C : Type 0} (gone : ℕ → Bool) (connect_direct : Text → ℕ → Option Text) (names : Names)
    (shows : (ip : IpAddr) → All IsScalar (names.show_ip ip)) (router : Router C) (u : UserProfile)
    (host : Text) (port : ℕ) (c : Conn)
    → IsTarget host port
    → IsConn c
    → Typed RelayTyped (connect_target gone connect_direct names router u host port c)
unfolding connect_target
connect_target-Typed {C} gone connect_direct names shows router u host port c t h =
    go (decide names router u host port)
      (decide-DirectTo (All IsScalar) names shows router u host port t.0)
  where
    dialled :
        (connect_host : Text) (o : Option Text)
        → All IsScalar connect_host
        → Typed (RelayTyped {C = C}) (elim o [
          | some e ↦ bail (direct_failed e) (send_reply gone 5 c)
          | none ↦ ok (relay_direct connect_host port, send_reply gone 0 c)
        ])
    dialled connect_host (some e) k = send_reply-IsConn gone 5 c (omega arith) h
    dialled connect_host none k = ((k, t.1, t.2), send_reply-IsConn gone 0 c (omega arith) h)

    go :
        (d : Result RouteError (RouteDecision C))
        → Holds (DirectTo (All IsScalar) names shows) d
        → Typed (RelayTyped {C = C}) (elim d [
          | err e ↦ bail (routing e) c
          | ok (proxy pool) ↦ ok (relay_grpc pool host port, send_reply gone 0 c)
          | ok (direct connect_host) ↦ elim (connect_direct connect_host port) [
            | some e ↦ bail (direct_failed e) (send_reply gone 5 c)
            | none ↦ ok (relay_direct connect_host port, send_reply gone 0 c)
          ]
        ])
    go (err e) k = h
    go (ok (proxy pool)) k = (t, send_reply-IsConn gone 0 c (omega arith) h)
    go (ok (direct connect_host)) k = dialled connect_host (connect_direct connect_host port) k

-- Whatever octets a client of the SOCKS5 proxy sends, what is written to it are octets, whether it is
-- served or not, and what it is relayed to is a text of characters and a port from 1 to 65535; where an
-- address is printed as characters.
pub handle-Typed :
    {C : Type 0} (gone : ℕ → Bool) (connect_direct : Text → ℕ → Option Text)
    (options : Socks5Options) (auth : AuthStore) (names : Names)
    (shows : (ip : IpAddr) → All IsScalar (names.show_ip ip)) (router : Router C) (c : Conn)
    → IsConn c
    → Typed RelayTyped (handle gone connect_direct options auth names router c)
unfolding handle
handle-Typed gone connect_direct options auth names shows router c h =
    Typed->>= _ _ (session gone options auth names c) _
      (session-Typed gone names shows options auth c h)
      (λ r c1 t h1. connect_target-Typed gone connect_direct names shows router r.0 r.1 r.2 c1 t h1)
