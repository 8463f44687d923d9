-- ===== src/Http/Login.antt =====
-- For whom the HTTP proxy of client/src/ingress_http.rs relays.
use ech_rust.Base.Text.{
  Text, Bytes, codes, same, trim, strip_prefix, split_once, eq_ignore_ascii_case,
}
use ech_rust.Base.Utf8.{from_utf8, as_bytes}
use ech_rust.Base.{
  map_err, ℕ, ◌≡◌, refl, sym, ap, Bool, true, false, [], Option, none, some, Result, ok, err,
  >>=-eq-ok, ok_or, or_else, unwrap_or, if◌then◌else◌,
}
use ech_rust.Conn.{Conn}
use ech_rust.Http.Authority.{parse_authority, parse_absolute_uri, rewrite_absolute_request}
use ech_rust.Http.Request.{
  HttpError, missing_authorization, unsupported_auth_scheme, invalid_base64, auth_not_utf8,
  missing_colon, invalid_credentials, routing, RequestParts, parse_request, find_header,
  authenticate,
}
use ech_rust.Http.{
  read_header, lift, take_header, connected, Relay, relay_direct, relay_grpc, write_response,
  answer_login, login, start_relay, route, handle_connect, handle_absolute, handle,
}
use ech_rust.Router.{Names, Router, RouteDecision, RouteError, direct, proxy, decide}
use ech_rust.Users.{UserProfile, AuthStore}
use ech_rust.Users

ok_or-eq-ok {ℓ} :
    {A : Type ℓ} (e : HttpError) (o : Option A) {a : A} → ok_or e o ≡ ok a → o ≡ some a
ok_or-eq-ok e none h = cc
ok_or-eq-ok e (some a) h = cc

pub authenticate-accepts :
    (base64 : Text → Option Bytes) (request : RequestParts) (auth : AuthStore) (u : UserProfile)
    → authenticate base64 request auth ≡ ok u
    → (name : Text) × (password : Text) × (Users.authenticate auth name password ≡ some u)
unfolding authenticate
authenticate-accepts base64 request auth u e =
    let (field, _, e1) =
      >>=-eq-ok
        (ok_or missing_authorization (find_header (codes "Proxy-Authorization") request.headers)) _
        e in
    let (encoded, _, e2) =
      >>=-eq-ok
        (ok_or unsupported_auth_scheme (
          or_else (strip_prefix (codes "Basic ") (trim field))
            (strip_prefix (codes "basic ") (trim field))))
        _ e1 in
    let (decoded, _, e3) = >>=-eq-ok (ok_or invalid_base64 (base64 encoded)) _ e2 in
    let (text, _, e4) = >>=-eq-ok (ok_or auth_not_utf8 (from_utf8 decoded)) _ e3 in
    let ((name, password), _, e5) = >>=-eq-ok (ok_or missing_colon (split_once b':' text)) _ e4 in
    (name, password, ok_or-eq-ok (invalid_credentials name) _ e5)

module _ {C : Type 0} (gone : ℕ → Bool) (base64 : Text → Option Bytes) (auth : AuthStore)
    (connect_direct : Text → ℕ → Option Text) (names : Names) (router : Router C) where
  -- The decision is carried out.
  abbrev pub Relays : RouteDecision C → Text → ℕ → Bytes → Relay C → Type 0
  Relays (proxy pool) host port payload r = r ≡ relay_grpc pool host port payload
  Relays (direct connect_host) host port payload r =
      (connect_direct connect_host port ≡ none) × (r ≡ relay_direct connect_host port payload)

  -- The router decided for the user and a target, and `r` is that decision carried out.
  pub record IsRouted (u : UserProfile) (r : Relay C) : Type 0 where
    pub host : Text
    pub port : ℕ
    pub payload : Bytes
    pub decision : RouteDecision C
    pub decided : decide names router u host port ≡ ok decision
    pub relays : Relays decision host port payload r

  -- The client sent a request with credentials of the user.
  pub record Admitted (input : Bytes) (r : Relay C) : Type 0 where
    pub header : Bytes
    pub rest : Bytes
    pub request : RequestParts
    pub user : UserProfile
    pub received : read_header input ≡ ok (header, rest)
    pub parsed : parse_request header ≡ ok request
    pub authenticated : authenticate base64 request auth ≡ ok user
    pub accepted :
        (name : Text) × (password : Text) × (Users.authenticate auth name password ≡ some user)
    pub routed : IsRouted user r

  start_relay-Relays :
      (d : RouteDecision C) (host : Text) (port : ℕ) (payload : Bytes) (c c' : Conn) (r : Relay C)
      → start_relay gone base64 auth connect_direct names router d host port payload c ≡ ok (r, c')
      → Relays d host port payload r
  unfolding start_relay
  start_relay-Relays (proxy pool) host port payload c c' r e =
      ap (elim [ ok p ↦ p.0 | err _ ↦ r ]) (sym e)
  start_relay-Relays (direct h) host port payload c c' r e = go (connect_direct h port) e
    where
      go :
          (o : Option Text)
          → connected o (relay_direct h port payload) c ≡ ok (r, c')
          → (o ≡ none) × (r ≡ relay_direct h port payload)
      go none k = (refl, ap (elim [ ok p ↦ p.0 | err _ ↦ r ]) (sym k))
      go (some x) k = cc

  route-decides :
      (u : UserProfile) (host : Text) (port : ℕ) (c c' : Conn) (d : RouteDecision C)
      → route gone base64 auth connect_direct names router u host port c ≡ ok (d, c')
      → decide names router u host port ≡ ok d
  unfolding route
  route-decides u host port c c' d e = go (decide names router u host port) e
    where
      go :
          (o : Result RouteError (RouteDecision C))
          → lift (map_err routing o) c ≡ ok (d, c')
          → o ≡ ok d
      go (ok x) k = ap (elim [ ok p ↦ ok p.0 | err _ ↦ ok x ]) k
      go (err x) k = cc

  lift-eq-ok :
      {A : Type 0} (m : Result HttpError A) (c c' : Conn) (a : A) → lift m c ≡ ok (a, c') → m ≡ ok a
  lift-eq-ok (ok x) c c' a h = ap (elim [ ok p ↦ ok p.0 | err _ ↦ ok x ]) h
  lift-eq-ok (err x) c c' a h = cc

  handle_connect-IsRouted :
      (u : UserProfile) (request : RequestParts) (c c' : Conn) (r : Relay C)
      → handle_connect gone base64 auth connect_direct names router u request c ≡ ok (r, c')
      → IsRouted u r
  unfolding handle_connect
  handle_connect-IsRouted u request c c' r e =
      let (((host, port), c1), _, e1) =
        >>=-eq-ok (lift (parse_authority request.target 443) c) _ e in
      let ((d, c2), decided, e2) =
        >>=-eq-ok (route gone base64 auth connect_direct names router u host port c1) _ e1 in
      let ((_, c3), _, e3) =
        >>=-eq-ok (write_response gone (codes "200 Connection Established") false c2) _ e2 in
      record {
        host = host;
        port = port;
        payload = [];
        decision = d;
        decided = route-decides u host port c1 c2 d decided;
        relays = start_relay-Relays d host port [] c3 c' r e3;
      }

  handle_absolute-IsRouted :
      (u : UserProfile) (request : RequestParts) (c c' : Conn) (r : Relay C)
      → handle_absolute gone base64 auth connect_direct names router u request c ≡ ok (r, c')
      → IsRouted u r
  unfolding handle_absolute
  handle_absolute-IsRouted u request c c' r e =
      let ((absolute, c1), _, e1) = >>=-eq-ok (lift (parse_absolute_uri request.target) c) _ e in
      let port =
        unwrap_or absolute.port (if same absolute.scheme (codes "https") then 443 else 80) in
      let payload = as_bytes (rewrite_absolute_request request absolute) in
      let ((d, c2), decided, e2) =
        >>=-eq-ok (route gone base64 auth connect_direct names router u absolute.host port c1) _
          e1 in
      record {
        host = absolute.host;
        port = port;
        payload = payload;
        decision = d;
        decided = route-decides u absolute.host port c1 c2 d decided;
        relays = start_relay-Relays d absolute.host port payload c2 c' r e2;
      }

  logged_in :
      (request : RequestParts) (c2 : Conn) (u : UserProfile) (c3 : Conn)
      (m : Result HttpError UserProfile)
      → answer_login gone base64 auth m c2 ≡ ok (u, c3)
      → m ≡ ok u
  unfolding answer_login
  logged_in request c2 u c3 (ok v) k = ap (elim [ ok p ↦ ok p.0 | err _ ↦ ok v ]) k
  logged_in request c2 u c3 (err x) k =
      let (_, _, k1) =
        >>=-eq-ok (write_response gone (codes "407 Proxy Authentication Required") true c2) _ k in
      cc

  pub handle-Admitted :
      (c c' : Conn) (r : Relay C)
      → handle gone base64 auth connect_direct names router c ≡ ok (r, c')
      → Admitted c.input r
  unfolding handle login
  handle-Admitted c c' r e =
      let ((header, c1), got, e1) = >>=-eq-ok (take_header (read_header c.input) c) _ e in
      let (rest, received) = taken (read_header c.input) got in
      let ((request, c2), parsed, e2) = >>=-eq-ok (lift (parse_request header) c1) _ e1 in
      let ((u, c3), logged, e3) = >>=-eq-ok (login gone base64 auth request c2) _ e2 in
      let authenticated = logged_in request c2 u c3 (authenticate base64 request auth) logged in
      record {
        header = header;
        rest = rest;
        request = request;
        user = u;
        received = received;
        parsed = lift-eq-ok (parse_request header) c1 c2 request parsed;
        authenticated = authenticated;
        accepted = authenticate-accepts base64 request auth u authenticated;
        routed = go u request c3 (eq_ignore_ascii_case request.method (codes "CONNECT")) e3;
      }
    where
      taken :
          (m : Result HttpError (Bytes × Bytes)) {header : Bytes} {c1 : Conn}
          → take_header m c ≡ ok (header, c1)
          → (rest : Bytes) × (m ≡ ok (header, rest))
      taken (ok (h, rest)) k = (rest, ap (elim [ ok p ↦ ok (p.0, rest) | err _ ↦ ok (h, rest) ]) k)
      taken (err x) k = cc

      go :
          (u : UserProfile) (request : RequestParts) (c3 : Conn) (b : Bool)
          → (if b
              then handle_connect gone base64 auth connect_direct names router u request c3
              else handle_absolute gone base64 auth connect_direct names router u request c3)
            ≡ ok (r, c')
          → IsRouted u r
      go u request c3 true k = handle_connect-IsRouted u request c3 c' r k
      go u request c3 false k = handle_absolute-IsRouted u request c3 c' r k
