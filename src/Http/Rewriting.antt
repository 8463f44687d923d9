-- ===== src/Http/Rewriting.antt =====
-- The lines that stand in place of the client's header, and what is found in them.
use mathlib.Core.List.{append_assoc, append-nil}
use ech_rust.Base.Parse.Lines.{join_crlf}
use ech_rust.Base.Text.{Text, codes, eq_ignore_ascii_case}
use ech_rust.Base.{
  ◌≡◌, refl, sym, ap, ◌∙◌, Bool, true, false, ◌||◌, List, [], ◌∷◌, ◌++◌, none, map, any,
  if◌then◌else◌, Bool-cases, inl, inr,
}
use ech_rust.Http.Authority.{
  AbsoluteUri, is_dropped, header_line, host_header, request_line, rewrite_headers,
  rewrite_absolute_request,
}
use ech_rust.Http.Request.{crlf, header_end, Header, RequestParts, find_header}

abbrev pub is_host : Header → Bool
is_host (name, value) = eq_ignore_ascii_case name (codes "Host")

abbrev pub kept : List Header → List Header
kept [] = []
kept (h ∷ hs) = if is_dropped h then kept hs else h ∷ kept hs

-- The client's headers without the two that are for the proxy, and a Host header where they have
-- none.
abbrev pub forwarded : List Header → AbsoluteUri → List Header
forwarded hs uri = kept hs ++ (if any is_host (kept hs) then [] else host_header uri ∷ [])

abbrev pub printed : List Header → Text
printed [] = []
printed (h ∷ hs) = (header_line h ++ crlf) ++ printed hs

pub printed-append : (hs ks : List Header) → printed (hs ++ ks) ≡ printed hs ++ printed ks
printed-append [] ks = refl
printed-append (h ∷ hs) ks =
    ap (λ t. (header_line h ++ crlf) ++ t) (printed-append hs ks)
    ∙ sym (append_assoc (header_line h ++ crlf) (printed hs) (printed ks))

pub or_swap : (a b c : Bool) → a || (b || c) ≡ (b || a) || c
or_swap true true c = refl
or_swap true false c = refl
or_swap false true c = refl
or_swap false false c = refl

pub rewrite_headers-kept :
    (hs : List Header) (b : Bool) (out : Text)
    → rewrite_headers hs b out ≡ (any is_host (kept hs) || b, out ++ printed (kept hs))
unfolding rewrite_headers
rewrite_headers-kept [] b out = ap (λ t. (b, t)) (sym (append-nil out))
rewrite_headers-kept (h ∷ hs) b out = elim (Bool-cases (is_dropped h)) [
  | inl drop ↦ rw drop (rewrite_headers-kept hs b out)
  | inr keep ↦ rw keep (
      rewrite_headers-kept hs (is_host h || b) (out ++ (header_line h ++ crlf))
      ∙ both (or_swap (any is_host (kept hs)) (is_host h) b)
          (append_assoc out (header_line h ++ crlf) (printed (kept hs))))
]
  where
    both : {a b : Bool} {s t : Text} → a ≡ b → s ≡ t → ◌≡◌ {A = Bool × Text} (a, s) (b, t)
    both p q = cc

pub printed-join :
    (l : Text) (hs : List Header)
    → (l ++ crlf) ++ (printed hs ++ crlf) ≡ join_crlf l (map header_line hs) ++ header_end
printed-join l [] = append_assoc l crlf crlf
printed-join l (h ∷ hs) =
    let line = header_line h in
    append_assoc l crlf (((line ++ crlf) ++ printed hs) ++ crlf)
    ∙ ap (λ t. l ++ (13 ∷ 10 ∷ t))
        (append_assoc (line ++ crlf) (printed hs) crlf ∙ printed-join line hs)
    ∙ sym (append_assoc l (13 ∷ 10 ∷ join_crlf line (map header_line hs)) header_end)

-- What is sent, as lines.
pub rewrite-join :
    (request : RequestParts) (uri : AbsoluteUri)
    → rewrite_absolute_request request uri
      ≡ join_crlf
          (request_line request.method uri.path request.version)
          (map header_line (forwarded request.headers uri))
        ++ header_end
unfolding rewrite_absolute_request
rewrite-join request uri =
    let first = request_line request.method uri.path request.version in
    rw (rewrite_headers-kept request.headers false (first ++ crlf)) (
      go first (any is_host (kept request.headers))
      ∙ printed-join first (forwarded request.headers uri))
  where
    go :
        (first : Text) (b : Bool)
        → (if b || false
              then (first ++ crlf) ++ printed (kept request.headers)
              else ((first ++ crlf) ++ printed (kept request.headers))
                ++ (header_line (host_header uri) ++ crlf))
            ++ crlf
          ≡ (first ++ crlf)
            ++ (printed (kept request.headers ++ (if b then [] else host_header uri ∷ [])) ++ crlf)
    go first true =
        rw (append-nil (kept request.headers))
          (append_assoc (first ++ crlf) (printed (kept request.headers)) crlf)
    go first false =
        let front = printed (kept request.headers) in
        let line = header_line (host_header uri) ++ crlf in
        let last : printed (kept request.headers ++ host_header uri ∷ []) ≡ front ++ line =
          printed-append (kept request.headers) (host_header uri ∷ [])
          ∙ ap (λ t. front ++ t) (append-nil line) in
        ap (λ t. t ++ crlf) (append_assoc (first ++ crlf) front line)
        ∙ append_assoc (first ++ crlf) (front ++ line) crlf
        ∙ ap (λ t. (first ++ crlf) ++ (t ++ crlf)) (sym last)

pub find_header-append :
    (wanted : Text) (hs ks : List Header)
    → find_header wanted hs ≡ none
    → find_header wanted (hs ++ ks) ≡ find_header wanted ks
unfolding find_header
find_header-append wanted [] ks h = refl
find_header-append wanted ((n, v) ∷ hs) ks h = elim (Bool-cases (eq_ignore_ascii_case n wanted)) [
  | inl hit ↦ let h' = rw hit at h in cc
  | inr miss ↦ rw miss (find_header-append wanted hs ks (rw miss at h))
]

-- Neither of the two headers is there.
abbrev pub Clean : List Header → Type 0
Clean ks =
    (find_header (codes "Proxy-Authorization") ks ≡ none)
    × (find_header (codes "Proxy-Connection") ks ≡ none)

pub kept-find_header :
    (hs : List Header)
    → (find_header (codes "Proxy-Authorization") (kept hs) ≡ none)
      × (find_header (codes "Proxy-Connection") (kept hs) ≡ none)
unfolding find_header
kept-find_header [] = (refl, refl)
kept-find_header ((n, v) ∷ hs) =
    go (eq_ignore_ascii_case n (codes "Proxy-Authorization")) refl
      (eq_ignore_ascii_case n (codes "Proxy-Connection")) refl (kept-find_header hs)
  where
    go :
        (a : Bool)
        → eq_ignore_ascii_case n (codes "Proxy-Authorization") ≡ a
        → (b : Bool) → eq_ignore_ascii_case n (codes "Proxy-Connection") ≡ b
        → Clean (kept hs)
        → Clean (if a || b then kept hs else (n, v) ∷ kept hs)
    go true p b q ih = ih
    go false p true q ih = ih
    go false p false q ih = (rw p ih.0, rw q ih.1)

pub no_proxy_headers :
    (hs : List Header) (uri : AbsoluteUri)
    → (find_header (codes "Proxy-Authorization") (forwarded hs uri) ≡ none)
      × (find_header (codes "Proxy-Connection") (forwarded hs uri) ≡ none)
unfolding find_header eq_ignore_ascii_case
no_proxy_headers hs uri =
    let (p, q) = kept-find_header hs in
    let b = any is_host (kept hs) in
    let last = if b then [] else host_header uri ∷ [] in
    let host = go b in
    (
      find_header-append (codes "Proxy-Authorization") (kept hs) last p ∙ host.0,
      find_header-append (codes "Proxy-Connection") (kept hs) last q ∙ host.1,
    )
  where
    go :
        (b : Bool)
        → (find_header (codes "Proxy-Authorization") (if b then [] else host_header uri ∷ [])
            ≡ none)
          × (find_header (codes "Proxy-Connection") (if b then [] else host_header uri ∷ []) ≡ none)
    go true = (refl, refl)
    go false = (refl, refl)
