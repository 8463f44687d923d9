-- ===== src/Http.antt =====
-- client/src/ingress_http.rs: the HTTP proxy, up to where it relays.
pub mod Request
pub mod Authority
pub mod Reading
pub mod Targets
pub mod Forwarding
pub mod Rewriting
pub mod Login
use ech_rust.Base.Parse.{ends_with}
use ech_rust.Base.Text.{Text, Bytes, codes, same, eq_ignore_ascii_case}
use ech_rust.Base.Utf8.{as_bytes}
use ech_rust.Base.{
  map_err, ℕ, zero, suc, ◌+◌, ◌*◌, Bool, true, false, List, [], ◌∷◌, ◌++◌, Option, none, some,
  Result, ok, err, ◌>>=◌, unwrap_or, if◌then◌else◌, length,
}
use ech_rust.Conn.{Conn}
use ech_rust.Http.Authority.{
  AbsoluteUri, parse_authority, parse_absolute_uri, rewrite_absolute_request,
}
use ech_rust.Http.Request.{
  HttpError, closed_early, header_too_large, write_failed, routing, direct_failed, header_end,
  RequestParts, parse_request, authenticate,
}
use ech_rust.Pool.{BackendPool}
use ech_rust.Router.{Names, Router, RouteDecision, direct, proxy, decide}
use ech_rust.Users.{UserProfile, AuthStore}

abbrev pub max_header_size : ℕ
max_header_size = 64 * 1024

-- The loop of `read_header`, by the rounds that the size still allows: the header with its end,
-- and what the client sends behind it.
unfoldable pub read_loop : ℕ → Bytes → Bytes → Result HttpError (Bytes × Bytes)
read_loop zero buf input = err header_too_large
read_loop (suc n) buf [] = err closed_early
read_loop (suc n) buf (b ∷ input) = elim (ends_with header_end (buf ++ b ∷ [])) [
  | true ↦ ok (buf ++ b ∷ [], input)
  | false ↦ read_loop n (buf ++ b ∷ []) input
]

unfoldable pub read_header : Bytes → Result HttpError (Bytes × Bytes)
read_header input = read_loop max_header_size [] input

-- A connection that ended with an error, and what was written to it until then.
pub record Stop : Type 0 where
  pub reason : HttpError
  pub conn : Conn

abbrev pub Step : Type 0 → Type 0
Step A = Result Stop (A × Conn)

abbrev pub bail : {A : Type 0} → HttpError → Conn → Step A
bail e c = err (record { reason = e; conn = c })

-- `?` on what does not touch the connection.
abbrev pub lift : {A : Type 0} → Result HttpError A → Conn → Step A
lift (ok a) c = ok (a, c)
lift (err e) c = bail e c

-- The header is taken off the input; where that fails the connection ends.
abbrev pub take_header : Result HttpError (Bytes × Bytes) → Conn → Step Bytes
take_header (ok (header, rest)) c = ok (header, record c { input = rest })
take_header (err e) c = bail e c

abbrev pub response : Text → Bool → Text
response status auth_required =
    codes "HTTP/1.1 "
    ++ status
    ++ codes "\r\n"
    ++ (if auth_required then codes "Proxy-Authenticate: Basic realm=\"ech-grpc\"\r\n" else [])
    ++ codes "Content-Length: 0\r\n\r\n"

-- What is relayed with, and what the target is sent first.
pub data Relay (C : Type 0) : Type 0 where
  relay_direct : Text → ℕ → Bytes → Relay C
  relay_grpc : BackendPool C → Text → ℕ → Bytes → Relay C

-- `connect_direct(..).await?`, on the error that it may give.
abbrev pub connected : {C : Type 0} → Option Text → Relay C → Conn → Step (Relay C)
connected (some e) r c = bail (direct_failed e) c
connected none r c = ok (r, c)

-- `gone n` says that the n-th write fails.
module _ (gone : ℕ → Bool) where
  unfoldable pub write_response : Text → Bool → Conn → Step (Unit {0})
  write_response status auth_required c =
      if gone (length c.output)
      then bail write_failed c
      else ok (tt, record c { output = c.output ++ as_bytes (response status auth_required) ∷ [] })

  module _ (base64 : Text → Option Bytes) (auth : AuthStore) where
    -- The user, or the answer that says that one is needed.
    unfoldable pub answer_login : Result HttpError UserProfile → Conn → Step UserProfile
    answer_login (ok u) c = ok (u, c)
    answer_login (err e) c = do
      (_, c1) ← write_response (codes "407 Proxy Authentication Required") true c
      bail e c1

    unfoldable pub login : RequestParts → Conn → Step UserProfile
    login request c = answer_login (authenticate base64 request auth) c

    module _ {C : Type 0} (connect_direct : Text → ℕ → Option Text) (names : Names)
        (router : Router C) where
      -- The two arms on a decision; `connect_direct` gives the error of the direct connection.
      unfoldable pub start_relay : RouteDecision C → Text → ℕ → Bytes → Conn → Step (Relay C)
      start_relay (proxy pool) host port payload c = ok (relay_grpc pool host port payload, c)
      start_relay (direct connect_host) host port payload c =
          connected (connect_direct connect_host port) (relay_direct connect_host port payload) c

      unfoldable pub route : UserProfile → Text → ℕ → Conn → Step (RouteDecision C)
      route u host port c = lift (map_err routing (decide names router u host port)) c

      unfoldable pub handle_connect : UserProfile → RequestParts → Conn → Step (Relay C)
      handle_connect u request c = do
        ((host, port), c1) ← lift (parse_authority request.target 443) c
        (decision, c2) ← route u host port c1
        (_, c3) ← write_response (codes "200 Connection Established") false c2
        start_relay decision host port [] c3

      unfoldable pub handle_absolute : UserProfile → RequestParts → Conn → Step (Relay C)
      handle_absolute u request c = do
        (absolute, c1) ← lift (parse_absolute_uri request.target) c
        let port =
            unwrap_or absolute.port (if same absolute.scheme (codes "https") then 443 else 80)
        let first_payload = as_bytes (rewrite_absolute_request request absolute)
        (decision, c2) ← route u absolute.host port c1
        start_relay decision absolute.host port first_payload c2

      unfoldable pub handle : Conn → Step (Relay C)
      handle c = do
        (header, c1) ← take_header (read_header c.input) c
        (request, c2) ← lift (parse_request header) c1
        (u, c3) ← login request c2
        if eq_ignore_ascii_case request.method (codes "CONNECT")
            then handle_connect u request c3
            else handle_absolute u request c3
