-- ===== src/Http/Forwarding.antt =====
-- What a target is sent in place of the client's header.
use mathlib.Core.List.{append-nil}
use ech_rust.Http.Rewriting.{
  is_host, kept, forwarded, rewrite-join, no_proxy_headers, find_header-append,
}
use ech_rust.Http.Targets.{plain, IsAuthority, parse_authority-show}
use ech_rust.Base.Parse.Lines.{join_crlf, split_crlf-join, strip_suffix-append}
use ech_rust.Base.Parse.Splits.{holds, split_once-append}
use ech_rust.Base.Text.Trim.{IsWord, word-no_cr, trim-space, split_whitespace-words}
use ech_rust.Base.Text.{Text, codes, trim, starts_with, eq_ignore_ascii_case}
use ech_rust.Base.Utf8.RoundTrip.{IsScalar, from_utf8-as_bytes}
use ech_rust.Base.Utf8.{as_bytes}
use ech_rust.Base.{
  ℕ, ◌≡◌, refl, sym, ap, ◌∙◌, Bool, true, false, List, [], ◌∷◌, ◌++◌, Option, none, some, ok, arith,
  unwrap_or, Bool-cases, inr, map, any, any-append, All, All-append, if◌then◌else◌, inl, ◌==◌,
}
use ech_rust.Http.Authority.{
  AbsoluteUri, is_dropped, header_line, host_value, host_header, request_line,
  rewrite_absolute_request, parse_authority,
}
use ech_rust.Http.Request.{
  header_end, Header, RequestParts, parse_headers, parse_request_line, parse_lines, parse_request,
  find_header,
}

-- Fields of a header that print and parse: the name has no colon, neither has white space around
-- it or a carriage return in it, and both are made of characters.
pub record IsField (h : Header) : Type 0 where
  pub no_colon : holds b':' h.0 ≡ false
  pub trimmed : (trim h.0 ≡ h.0) × (trim h.1 ≡ h.1)
  pub one_line : (holds 13 h.0 ≡ false) × (holds 13 h.1 ≡ false)
  pub scalar : All IsScalar h.0 × All IsScalar h.1

-- A request that is forwarded: three words, the last of them a version, and headers that print;
-- so does the Host header that the URI stands for. The URI's host is a name or an IPv4 address.
pub record IsForwardable (request : RequestParts) (uri : AbsoluteUri) : Type 0 where
  pub words : IsWord request.method × IsWord uri.path × IsWord request.version
  pub version_ok : starts_with (codes "HTTP/") request.version ≡ true
  pub scalar : All IsScalar request.method × All IsScalar uri.path × All IsScalar request.version
  pub fields : All IsField request.headers
  pub host_ok : IsField (host_header uri)
  pub authority : IsAuthority (plain uri.host uri.port) × (holds b':' uri.host ≡ false)

no_host-find_header :
    (hs : List Header) → any is_host hs ≡ false → find_header (codes "Host") hs ≡ none
unfolding find_header
no_host-find_header [] h = refl
no_host-find_header ((n, v) ∷ hs) h = ground (arith, no_host-find_header hs)

find_header-host :
    (value : Text) → find_header (codes "Host") ((codes "Host", value) ∷ []) ≡ some value
unfolding find_header eq_ignore_ascii_case
find_header-host value = refl

-- The value of the Host header is a printed authority, without the port 80.
parse_authority-host_value :
    (host : Text) (port : Option ℕ)
    → IsAuthority (plain host port)
    → holds b':' host ≡ false
    → parse_authority (host_value host port) 80 ≡ ok (host, unwrap_or port 80)
parse_authority-host_value host none a no_colon =
    ap (λ t. parse_authority t 80) (sym (append-nil host))
    ∙ parse_authority-show (plain host none) 80 (omega arith) a
parse_authority-host_value host (some port) a no_colon = elim (Bool-cases (port == 80)) [
  | inl standard ↦
      let usual : port ≡ 80 = ground arith in
      rw standard (
        rw usual (
          ap (λ t. parse_authority t 80) (sym (append-nil host))
          ∙ parse_authority-show (plain host none) 80 (omega arith) (a.0, a.1, a.2, a.3, no_colon)))
  | inr other ↦ rw other (parse_authority-show (plain host (some port)) 80 (omega arith) a)
]

kept-All : (hs : List Header) → All IsField hs → All IsField (kept hs)
kept-All [] a = tt
kept-All (h ∷ hs) a = go (is_dropped h) (kept-All hs a.1)
  where
    go : (b : Bool) → All IsField (kept hs) → All IsField (if b then kept hs else h ∷ kept hs)
    go true ih = ih
    go false ih = (a.0, ih)

forwarded-All :
    (hs : List Header) (uri : AbsoluteUri)
    → All IsField hs
    → IsField (host_header uri)
    → All IsField (forwarded hs uri)
forwarded-All hs uri a b =
    All-append IsField (kept hs) _ (kept-All hs a) (go (any is_host (kept hs)))
  where
    go : (c : Bool) → All IsField (if c then [] else host_header uri ∷ [])
    go true = tt
    go false = (b, tt)

parse_headers-lines :
    (hs : List Header) → All IsField hs → parse_headers (map header_line hs) ≡ ok hs
unfolding parse_headers
parse_headers-lines [] a = refl
parse_headers-lines ((n, v) ∷ hs) (f, a) =
    rw
      (
        split_once-append b':' n (32 ∷ v) f.no_colon,
        parse_headers-lines hs a,
        f.trimmed.0,
        trim-space v,
        f.trimmed.1,
      )
      refl

line-IsScalar : (h : Header) → IsField h → All IsScalar (header_line h)
line-IsScalar (n, v) f =
    All-append IsScalar n (b':' ∷ 32 ∷ v) f.scalar.0
      (inl (omega arith), (inl (omega arith), f.scalar.1))

line-no_cr : (h : Header) → IsField h → holds 13 (header_line h) ≡ false
line-no_cr (n, v) f =
    any-append (λ c. c == 13) n (b':' ∷ 32 ∷ v) ∙ rw (f.one_line.0, f.one_line.1) refl

lines-hold :
    (hs : List Header)
    → All IsField hs
    → All (λ m. All IsScalar m) (map header_line hs)
      × All (λ m. holds 13 m ≡ false) (map header_line hs)
lines-hold [] a = (tt, tt)
lines-hold (h ∷ hs) (f, a) =
    let (scalar, no_cr) = lines-hold hs a in ((line-IsScalar h f, scalar), (line-no_cr h f, no_cr))

join-IsScalar :
    (l : Text) (ls : List Text)
    → All IsScalar l
    → All (λ m. All IsScalar m) ls
    → All IsScalar (join_crlf l ls)
join-IsScalar l [] h k = h
join-IsScalar l (m ∷ ms) h k =
    All-append IsScalar l (13 ∷ 10 ∷ join_crlf m ms) h
      (inl (omega arith), (inl (omega arith), join-IsScalar m ms k.0 k.1))

module _ (request : RequestParts) (uri : AbsoluteUri) (ready : IsForwardable request uri) where
  abbrev first_line : Text
  first_line = request_line request.method uri.path request.version

  first_line-IsScalar : All IsScalar first_line
  first_line-IsScalar =
      let (m, p, v) = ready.scalar in
      All-append IsScalar request.method _ m
        (inl (omega arith), All-append IsScalar uri.path _ p (inl (omega arith), v))

  first_line-no_cr : holds 13 first_line ≡ false
  first_line-no_cr =
      let (m, p, v) = ready.words in
      any-append (λ c. c == 13) request.method (32 ∷ (uri.path ++ (32 ∷ request.version)))
      ∙ rw
          (
            word-no_cr request.method m.0,
            any-append (λ c. c == 13) uri.path (32 ∷ request.version),
            word-no_cr uri.path p.0,
            word-no_cr request.version v.0,
          )
          refl

  abbrev sent : List Header
  sent = forwarded request.headers uri

  sent-All : All IsField sent
  sent-All = forwarded-All request.headers uri ready.fields ready.host_ok

  sent-IsScalar : All IsScalar (join_crlf first_line (map header_line sent) ++ header_end)
  sent-IsScalar =
      All-append IsScalar (join_crlf first_line (map header_line sent)) header_end
        (join-IsScalar first_line (map header_line sent) first_line-IsScalar
          (lines-hold sent sent-All).0)
        (inl (omega arith), (inl (omega arith), (inl (omega arith), (inl (omega arith), tt))))

  rewrite-parses :
      parse_request (as_bytes (rewrite_absolute_request request uri))
      ≡ ok (record {
        method = request.method;
        target = uri.path;
        version = request.version;
        headers = forwarded request.headers uri;
      })
  unfolding parse_request parse_lines parse_request_line
  rewrite-parses =
      let (m, p, v) = ready.words in
      rw
        (
          rewrite-join request uri,
          from_utf8-as_bytes (join_crlf first_line (map header_line sent) ++ header_end)
              sent-IsScalar,
          strip_suffix-append (join_crlf first_line (map header_line sent)) header_end,
          split_crlf-join first_line (map header_line sent) first_line-no_cr
              (lines-hold sent sent-All).1,
          split_whitespace-words request.method uri.path request.version m p v,
          ready.version_ok,
          parse_headers-lines sent sent-All,
        )
        refl

  -- Where the client sends no Host header, the one behind its headers reads back as the URI's host
  -- and port.
  host-reads :
      any is_host (kept request.headers) ≡ false
      → (value : Text) × (find_header (codes "Host") (forwarded request.headers uri) ≡ some value)
        × (parse_authority value 80 ≡ ok (uri.host, unwrap_or uri.port 80))
  host-reads missing = (
    (host_header uri).1,
    rw missing (
        find_header-append (codes "Host") (kept request.headers) (host_header uri ∷ [])
          (no_host-find_header (kept request.headers) missing)
        ∙ find_header-host (host_header uri).1),
    parse_authority-host_value uri.host uri.port ready.authority.0 ready.authority.1,
  )

  -- For a request whose parts print (`IsForwardable`), what is sent to the target is a request that
  -- parses: the client's method and version, the path of the URI, and the headers `forwarded`, which
  -- are the client's in their order without Proxy-Authorization and Proxy-Connection, in any case of
  -- their letters, and with a Host header behind them where there is none. That one reads back as the
  -- URI's host, which has no colon, and its port, 80 where none is written.
  pub parse_request-rewrite_absolute_request :
      (parse_request (as_bytes (rewrite_absolute_request request uri))
        ≡ ok (record {
          method = request.method;
          target = uri.path;
          version = request.version;
          headers = forwarded request.headers uri;
        }))
      × (find_header (codes "Proxy-Authorization") (forwarded request.headers uri) ≡ none)
      × (find_header (codes "Proxy-Connection") (forwarded request.headers uri) ≡ none)
      × (any is_host (kept request.headers) ≡ false
          → (value : Text) × (find_header (codes "Host") (forwarded request.headers uri)
              ≡ some value)
            × (parse_authority value 80 ≡ ok (uri.host, unwrap_or uri.port 80)))
  parse_request-rewrite_absolute_request =
      let (a, b) = no_proxy_headers request.headers uri in (rewrite-parses, a, b, host-reads)
