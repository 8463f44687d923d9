-- ===== src/Http/Authority.antt =====
-- client/src/ingress_http.rs: `parse_authority`, `parse_absolute_uri` and
-- `rewrite_absolute_request`.
use ech_rust.Base.Parse.{find_split, parse_u16}
use ech_rust.Base.Text.{
  Text, codes, is_empty, is_ascii_digit, is_ascii_whitespace, split_once, rsplit_once, strip_prefix,
  eq_ignore_ascii_case, to_ascii_lowercase, decimal,
}
use ech_rust.Base.{
  ℕ, Bool, false, not, ◌&&◌, ◌||◌, List, [], ◌∷◌, ◌++◌, Option, none, some, Result, ok, ◌>>=◌, ◌>>◌,
  guard, ok_or, any, all, map, ◌==◌, if◌then◌else◌,
}
use ech_rust.Http.Request.{
  HttpError, unsupported_scheme, absolute_form_required, invalid_authority, invalid_ipv6_authority,
  invalid_ipv6_port, invalid_port, Header, RequestParts, crlf,
}

-- Behind the closing bracket: nothing, or a colon with the port.
unfoldable pub ipv6_port : Text → ℕ → Result HttpError ℕ
ipv6_port [] default_port = ok default_port
ipv6_port (c ∷ cs) default_port = do
  digits ← ok_or invalid_ipv6_port (strip_prefix (b':' ∷ []) (c ∷ cs))
  ok_or invalid_port (parse_u16 digits)

unfoldable pub parse_bracketed : Text → ℕ → Result HttpError (Text × ℕ)
parse_bracketed rest default_port = do
  (host, after) ← ok_or invalid_ipv6_authority (split_once b']' rest)
  port ← ipv6_port after default_port
  ok (host, port)

-- The `match` on `rsplit_once(':')`.
unfoldable pub host_port : Text → Option (Text × Text) → ℕ → Result HttpError (Text × ℕ)
host_port authority none default_port = ok (authority, default_port)
host_port authority (some (host, port)) default_port =
    if not (is_empty port) && all is_ascii_digit port
    then (do n ← ok_or invalid_port (parse_u16 port); ok (host, n))
    else ok (authority, default_port)

-- The bytes that are tested are ASCII, so they are characters as well.
unfoldable pub parse_plain : Text → ℕ → Result HttpError (Text × ℕ)
parse_plain authority default_port = do
  (host, port) ← host_port authority (rsplit_once b':' authority) default_port
  guard (not (is_empty host || port == 0 || any is_ascii_whitespace host)) invalid_authority
  ok (host, port)

unfoldable pub parse_authority : Text → ℕ → Result HttpError (Text × ℕ)
parse_authority authority default_port = do
  guard (not (is_empty authority || any (λ c. c == b'@') authority)) invalid_authority
  elim (strip_prefix (b'[' ∷ []) authority) [
    | some rest ↦ parse_bracketed rest default_port
    | none ↦ parse_plain authority default_port
  ]

pub record AbsoluteUri : Type 0 where
  pub scheme : Text
  pub host : Text
  pub port : Option ℕ
  pub path : Text

-- `str::split_once("://")`
unfoldable pub split_scheme : Text → Option (Text × Text)
split_scheme [] = none
split_scheme (c ∷ cs) = elim (strip_prefix (codes "://") (c ∷ cs)) [
  | some rest ↦ some ([], rest)
  | none ↦ elim (split_scheme cs) [ none ↦ none | some (a, b) ↦ some (c ∷ a, b) ]
]

-- The `match` on `rest.find('/')`.
abbrev pub split_path : Text → Option (Text × Text) → Text × Text
split_path rest none = (rest, codes "/")
split_path rest (some (authority, path)) = (authority, path)

unfoldable pub parse_absolute_uri : Text → Result HttpError AbsoluteUri
parse_absolute_uri target = do
  (scheme, rest) ← ok_or absolute_form_required (split_scheme target)
  guard (eq_ignore_ascii_case scheme (codes "http")) (unsupported_scheme scheme)
  let (authority, path) = split_path rest (find_split b'/' rest)
  (host, port) ← parse_authority authority 80
  ok (record { scheme = map to_ascii_lowercase scheme; host = host; port = some port; path = path })

-- The headers that are not forwarded.
abbrev pub is_dropped : Header → Bool
is_dropped (name, value) =
    eq_ignore_ascii_case name (codes "Proxy-Authorization")
    || eq_ignore_ascii_case name (codes "Proxy-Connection")

abbrev pub header_line : Header → Text
header_line (name, value) = name ++ (b':' ∷ 32 ∷ value)

-- The loop over the headers: whether a Host header was seen, and what was written.
unfoldable pub rewrite_headers : List Header → Bool → Text → Bool × Text
rewrite_headers [] has_host out = (has_host, out)
rewrite_headers (h ∷ hs) has_host out =
    if is_dropped h
    then rewrite_headers hs has_host out
    else rewrite_headers hs (eq_ignore_ascii_case h.0 (codes "Host") || has_host)
        (out ++ (header_line h ++ crlf))

-- `Some(80) | None`, or any other port.
abbrev pub host_value : Text → Option ℕ → Text
host_value host none = host
host_value host (some port) = if port == 80 then host else host ++ (b':' ∷ decimal port)

abbrev pub host_header : AbsoluteUri → Header
host_header uri = (codes "Host", host_value uri.host uri.port)

abbrev pub request_line : Text → Text → Text → Text
request_line method path version = method ++ (32 ∷ (path ++ (32 ∷ version)))

-- The text that is sent in place of the client's header.
unfoldable pub rewrite_absolute_request : RequestParts → AbsoluteUri → Text
rewrite_absolute_request request uri =
    let (has_host, out) =
      rewrite_headers request.headers false
        (request_line request.method uri.path request.version ++ crlf) in
    (if has_host then out else out ++ (header_line (host_header uri) ++ crlf)) ++ crlf
