-- ===== src/Http/Request.antt =====
-- client/src/ingress_http.rs: `parse_request` and `authenticate`.
use ech_rust.Base.Parse.{strip_suffix, split_crlf}
use ech_rust.Base.Text.{
  Text, Bytes, codes, trim, split_once, split_whitespace, strip_prefix, starts_with,
  eq_ignore_ascii_case,
}
use ech_rust.Base.Utf8.{from_utf8}
use ech_rust.Base.{
  List, [], ◌∷◌, Option, none, some, Result, ok, err, ◌>>=◌, ok_or, or_else, if◌then◌else◌,
}
use ech_rust.Router.{RouteError}
use ech_rust.Users.{UserProfile, AuthStore}
use ech_rust.Users

pub data HttpError : Type 0 where
  closed_early header_too_large write_failed : HttpError
  not_utf8 missing_terminator missing_request_line : HttpError
  missing_method missing_target missing_version : HttpError
  malformed_request_line malformed_header : HttpError
  missing_authorization unsupported_auth_scheme : HttpError
  invalid_base64 auth_not_utf8 missing_colon : HttpError
  invalid_credentials unsupported_scheme : Text → HttpError
  absolute_form_required invalid_authority : HttpError
  invalid_ipv6_authority invalid_ipv6_port invalid_port : HttpError
  routing : RouteError → HttpError
  direct_failed : Text → HttpError

abbrev pub crlf : Text
crlf = 13 ∷ 10 ∷ []

abbrev pub header_end : Text
header_end = 13 ∷ 10 ∷ 13 ∷ 10 ∷ []

abbrev pub Header : Type 0
Header = Text × Text

pub record RequestParts : Type 0 where
  pub method : Text
  pub target : Text
  pub version : Text
  pub headers : List Header

-- The loop over the lines behind the first one.
unfoldable pub parse_headers : List Text → Result HttpError (List Header)
parse_headers [] = ok []
parse_headers (line ∷ lines) = do
  (name, value) ← ok_or malformed_header (split_once b':' line)
  headers ← parse_headers lines
  ok ((trim name, trim value) ∷ headers)

-- The request line, by the pieces that `split_whitespace` gives.
unfoldable pub parse_request_line : List Text → Result HttpError (Text × Text × Text)
parse_request_line [] = err missing_method
parse_request_line (_ ∷ []) = err missing_target
parse_request_line (_ ∷ _ ∷ []) = err missing_version
parse_request_line (method ∷ target ∷ version ∷ []) =
    if starts_with (codes "HTTP/") version
    then ok (method, target, version)
    else err malformed_request_line
parse_request_line (_ ∷ _ ∷ _ ∷ _ ∷ _) = err malformed_request_line

unfoldable pub parse_lines : List Text → Result HttpError RequestParts
parse_lines [] = err missing_request_line
parse_lines (request_line ∷ lines) = do
  (method, target, version) ← parse_request_line (split_whitespace request_line)
  headers ← parse_headers lines
  ok (record { method = method; target = target; version = version; headers = headers })

unfoldable pub parse_request : Bytes → Result HttpError RequestParts
parse_request header = do
  whole ← ok_or not_utf8 (from_utf8 header)
  text ← ok_or missing_terminator (strip_suffix header_end whole)
  parse_lines (split_crlf text)

-- `iter().find(..)` by a name, in any case of its letters.
unfoldable pub find_header : Text → List Header → Option Text
find_header wanted [] = none
find_header wanted ((name, value) ∷ rest) =
    if eq_ignore_ascii_case name wanted then some value else find_header wanted rest

-- `base64` is the standard decoder of the base64 crate.
module _ (base64 : Text → Option Bytes) where
  unfoldable pub authenticate : RequestParts → AuthStore → Result HttpError UserProfile
  authenticate request auth = do
    field ← ok_or missing_authorization (find_header (codes "Proxy-Authorization") request.headers)
    let value = trim field
    encoded ←
        ok_or unsupported_auth_scheme
          (or_else (strip_prefix (codes "Basic ") value) (strip_prefix (codes "basic ") value))
    decoded ← ok_or invalid_base64 (base64 encoded)
    credentials ← ok_or auth_not_utf8 (from_utf8 decoded)
    (username, password) ← ok_or missing_colon (split_once b':' credentials)
    ok_or (invalid_credentials username) (Users.authenticate auth username password)
