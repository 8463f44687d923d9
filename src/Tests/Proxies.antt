-- ===== src/Tests/Proxies.antt =====
-- An HTTP proxy client that asks for a page.
use ech_rust.Base.Parse.{ends_with, strip_suffix, split_crlf, find_split, parse_u16}
use ech_rust.Base.Text.{
  Text, Bytes, codes, same, trim, split_once, rsplit_once, strip_prefix, starts_with,
  eq_ignore_ascii_case, split_whitespace, decimal, is_ascii_whitespace, is_whitespace,
}
use ech_rust.Base.Utf8.{from_utf8, as_bytes}
use ech_rust.Base.{
  ℕ, ◌≤◌, ◌≡◌, ◌↔◌, refl, Bool, false, [], ◌∷◌, ◌++◌, Option, none, some, ok, arith, length,
  if◌then◌else◌, any,
}
use ech_rust.Conn.{Conn}
use ech_rust.Http.Authority.{
  AbsoluteUri, parse_authority, parse_absolute_uri, rewrite_absolute_request, split_scheme,
  parse_bracketed, ipv6_port, parse_plain, host_port, rewrite_headers,
}
use ech_rust.Http.Forwarding.{IsForwardable, parse_request-rewrite_absolute_request}
use ech_rust.Http.Rewriting.{forwarded, is_host, kept}
use ech_rust.Http.Reading.{IsHeader, read_header-IsHeader}
use ech_rust.Http.Request.{
  RequestParts, parse_request, find_header, authenticate, parse_lines, parse_request_line,
  parse_headers,
}
use ech_rust.Http.Targets.{Authority, plain, show, parse_authority-show}
use ech_rust.Http.{
  Relay, relay_grpc, read_header, handle, read_loop, login, answer_login, handle_absolute, route,
  start_relay,
}
use ech_rust.Router.{decide}
use ech_rust.Tests.Clients.{pool}
use ech_rust.Users

abbrev site : Authority
site = plain (codes "example.org") (some 8080)

parse_authority-show_example : parse_authority (show site) 80 ≡ ok (codes "example.org", 8080)
unfolding strip_prefix is_ascii_whitespace
parse_authority-show_example =
    parse_authority-show site 80 (omega arith) (refl, refl, refl, refl, (omega arith, omega arith))

-- No host and port 0, in brackets.
empty_bracketed : parse_authority (codes "[]:0") 443 ≡ ok ([], 0)
unfolding parse_authority strip_prefix split_once parse_u16 parse_bracketed ipv6_port
empty_bracketed = refl

abbrev header : Bytes
header =
    codes
      "GET http://example.org:8080/a HTTP/1.1\r\nProxy-Authorization: Basic eA==\r\nAccept: *\r\n\r\n"

read_header-IsHeader_example :
    (read_header (codes "A\r\n\r\nB") ≡ ok (codes "A\r\n\r\n", codes "B"))
    ↔ (codes "A\r\n\r\nB" ≡ codes "A\r\n\r\n" ++ codes "B")
      × IsHeader (codes "A\r\n\r\n")
      × (length (codes "A\r\n\r\n") ≤ 65536)
read_header-IsHeader_example =
    read_header-IsHeader (codes "A\r\n\r\nB") (codes "A\r\n\r\n") (codes "B")

abbrev base64 : Text → Option Bytes
base64 t = if same t (codes "eA==") then some (codes "alice:secret") else none

abbrev never : ℕ → Bool
never n = false

abbrev connect_direct : Text → ℕ → Option Text
connect_direct host port = none

abbrev client : Conn
client = record { input = header ++ codes "body"; output = [] }

abbrev request : RequestParts
request = record {
  method = codes "GET";
  target = codes "http://example.org:8080/a";
  version = codes "HTTP/1.1";
  headers = (codes "Proxy-Authorization", codes "Basic eA==") ∷ (codes "Accept", codes "*") ∷ [];
}

abbrev uri : AbsoluteUri
uri = record {
  scheme = codes "http";
  host = codes "example.org";
  port = some 8080;
  path = codes "/a";
}

abbrev relay : Relay ℕ
relay =
    relay_grpc pool (codes "example.org") 8080
      (codes "GET /a HTTP/1.1\r\nAccept: *\r\nHost: example.org:8080\r\n\r\n")

abbrev served : Conn
served = record { input = codes "body"; output = [] }

-- What a run of the proxy computes with.
running : Unit {0}
unfolding handle read_header ends_with parse_request from_utf8 strip_suffix split_crlf
    split_whitespace starts_with strip_prefix split_once trim authenticate find_header
    eq_ignore_ascii_case Users.authenticate parse_absolute_uri split_scheme find_split
    parse_authority rsplit_once parse_u16 decide rewrite_absolute_request decimal as_bytes read_loop
    parse_lines parse_request_line parse_headers login answer_login handle_absolute parse_plain
    host_port is_ascii_whitespace route start_relay rewrite_headers
running = tt

ready : IsForwardable request uri
unfolding is_ascii_whitespace is_whitespace trim starts_with strip_prefix decimal
ready = record {
  words = ((refl, refl), (refl, refl), (refl, refl));
  version_ok = refl;
  scalar = (ground arith, ground arith, ground arith);
  fields = (
    record {
      no_colon = refl;
      trimmed = (refl, refl);
      one_line = (refl, refl);
      scalar = (ground arith, ground arith);
    },
    (
      record {
        no_colon = refl;
        trimmed = (refl, refl);
        one_line = (refl, refl);
        scalar = (ground arith, ground arith);
      },
      tt,
    ),
  );
  host_ok = record {
    no_colon = refl;
    trimmed = (refl, refl);
    one_line = (refl, refl);
    scalar = (ground arith, ground arith);
  };
  authority = ((refl, refl, refl, refl, (omega arith, omega arith)), refl);
}

parse_request-rewrite_absolute_request_example :
    (parse_request (as_bytes (rewrite_absolute_request request uri))
      ≡ ok (record {
        method = codes "GET";
        target = codes "/a";
        version = codes "HTTP/1.1";
        headers = forwarded request.headers uri;
      }))
    × (find_header (codes "Proxy-Authorization") (forwarded request.headers uri) ≡ none)
    × (find_header (codes "Proxy-Connection") (forwarded request.headers uri) ≡ none)
    × (any is_host (kept request.headers) ≡ false
        → (value : Text) × (find_header (codes "Host") (forwarded request.headers uri) ≡ some value)
          × (parse_authority value 80 ≡ ok (codes "example.org", 8080)))
parse_request-rewrite_absolute_request_example =
    parse_request-rewrite_absolute_request request uri ready
