-- ===== src/EchConnector/Verified.antt =====
-- What the connectors of client/src/ech_connector.rs verify.
use mathlib.Core.Path.{subst}
use ech_rust.Base.Text.{Text, Bytes, is_empty, same→≡}
use ech_rust.Base.{
  ℕ, ◌+◌, ◌≡◌, refl, ap, ◌∙◌, inl, inr, true, false, not, List, [], ◌∷◌, ◌++◌, Option, none, some,
  guard, ok_or, ◌==◌, All, All-append, Bool-cases, length, length-append, Holds, Holds->>=,
  Holds-ok_or, Holds-guard, Holds-refl,
}
use ech_rust.EchConnector.{
  add_roots, load_native_roots, check_ca_file, h2, build_ssl_connector, same_path, cached,
  entry_or_insert, use_cached, cached_ssl_connector,
}
use ech_rust.Tls.{
  no_ssl_builder, no_default_roots, no_native_roots, no_usable_roots, no_alpn_setting, SslConnector,
  Boring, SslCache,
}

-- A connector that verifies its peer, offers HTTP/2 alone, and has a certificate of the native store
-- and the file that was asked for.
pub record IsVerifying (b : Boring) (ca_cert : Option Text) (c : SslConnector) : Type 0 where
  pub verifies : c.verify_peer ≡ true
  pub offers : c.alpn_protos ≡ 2 ∷ h2
  pub has_roots : is_empty c.roots ≡ false
  pub roots_parse : All (λ r. b.is_x509 r ≡ true) c.roots
  pub has_file : c.ca_file ≡ ca_cert

-- Each connector of the cache is one for its file.
abbrev pub IsKeyed : Boring → SslCache → Type 0
IsKeyed b cache = All (λ e. IsVerifying b e.0 e.1) cache

abbrev Loaded : Boring → List Bytes → ℕ → Type 0
Loaded b roots loaded = All (λ r. b.is_x509 r ≡ true) roots × (length roots ≡ loaded)

add_roots-Loaded :
    (b : Boring) (certs roots : List Bytes) (loaded : ℕ)
    → Loaded b roots loaded
    → Holds (λ r. Loaded b r.0 r.1) (add_roots b certs roots loaded)
unfolding add_roots
add_roots-Loaded b [] roots loaded h = h
add_roots-Loaded b (cert ∷ certs) roots loaded h = elim (Bool-cases (b.is_x509 cert)) [
  | inr bad ↦ rw bad tt
  | inl good ↦ elim (Bool-cases (b.adds cert)) [
    | inr left ↦ rw (good, left) (add_roots-Loaded b certs roots loaded h)
    | inl taken ↦
        rw (good, taken)
          (add_roots-Loaded b certs (roots ++ (cert ∷ [])) (loaded + 1) (
            All-append (λ r. b.is_x509 r ≡ true) roots (cert ∷ []) h.0 (good, tt),
            length-append roots (cert ∷ []) ∙ ap (λ k. k + 1) h.1,
          ))
  ]
]

-- Certificates that parse, and one at least.
record AreUsable (b : Boring) (roots : List Bytes) : Type 0 where
  parse : All (λ r. b.is_x509 r ≡ true) roots
  present : is_empty roots ≡ false

some_loaded :
    (roots : List Bytes) (loaded : ℕ)
    → length roots ≡ loaded
    → not (loaded == 0) ≡ true
    → is_empty roots ≡ false
some_loaded [] loaded e h = absurd (let no = ap (λ k. not (k == 0)) e ∙ h in cc)
some_loaded (r ∷ rs) loaded e h = refl

load_native_roots-AreUsable : (b : Boring) → Holds (AreUsable b) (load_native_roots b)
unfolding load_native_roots
load_native_roots-AreUsable b =
    Holds->>= _ _ (ok_or no_native_roots b.native_certs) _
      (Holds-ok_or no_native_roots b.native_certs)
      (λ certs given.
        Holds->>= _ _ (add_roots b certs [] 0) _ (add_roots-Loaded b certs [] 0 (tt, refl)) (λ r h.
          Holds->>= _ _ (guard (not (r.1 == 0)) no_usable_roots) _
            (Holds-guard (not (r.1 == 0)) no_usable_roots)
            (λ u any. record { parse = h.0; present = some_loaded r.0 r.1 h.1 any })))

build_ssl_connector-IsVerifying :
    (b : Boring) (ca_cert : Option Text)
    → Holds (IsVerifying b ca_cert) (build_ssl_connector b ca_cert)
unfolding build_ssl_connector
build_ssl_connector-IsVerifying b ca_cert =
    Holds->>= _ _ (guard b.has_builder no_ssl_builder) _ (Holds-guard b.has_builder no_ssl_builder)
      (λ u1 h1.
        Holds->>= _ _ (guard b.sets_default_paths no_default_roots) _
          (Holds-guard b.sets_default_paths no_default_roots)
          (λ u2 h2.
            Holds->>= _ _ (load_native_roots b) _ (load_native_roots-AreUsable b) (λ roots h3.
              Holds->>= _ _ (guard b.sets_alpn no_alpn_setting) _
                (Holds-guard b.sets_alpn no_alpn_setting)
                (λ u4 h4.
                  Holds->>= _ _ (check_ca_file b ca_cert) _ (Holds-refl (check_ca_file b ca_cert))
                    (λ u5 h5. record {
                      verifies = refl;
                      offers = refl;
                      has_roots = h3.present;
                      roots_parse = h3.parse;
                      has_file = refl;
                    })))))

same_path→≡ : (a c : Option Text) → same_path a c ≡ true → a ≡ c
same_path→≡ none none h = refl
same_path→≡ (some a) (some c) h = ap some (same→≡ a c h)
same_path→≡ none (some c) h = absurd (let no : false ≡ true = h in cc)
same_path→≡ (some a) none h = absurd (let no : false ≡ true = h in cc)

abbrev Fits : Boring → Option Text → Option SslConnector → Type 0
Fits b ca_cert none = Unit
Fits b ca_cert (some c) = IsVerifying b ca_cert c

cached-Fits :
    (b : Boring) (ca_cert : Option Text) (cache : SslCache)
    → IsKeyed b cache
    → Fits b ca_cert (cached ca_cert cache)
cached-Fits b ca_cert [] k = tt
cached-Fits b ca_cert ((path, connector) ∷ rest) k = elim (Bool-cases (same_path path ca_cert)) [
  | inl hit ↦ rw hit (subst (λ p. IsVerifying b p connector) (same_path→≡ path ca_cert hit) k.0)
  | inr miss ↦ rw miss (cached-Fits b ca_cert rest k.1)
]

-- Whatever connectors were built before, a connector that is handed out verifies its peer, offers
-- only HTTP/2, trusts at least one native certificate, each of which parses, and the file that was
-- asked for and no other; and the cache keeps only such connectors.
pub cached_ssl_connector-IsVerifying :
    (b : Boring) (ca_cert : Option Text) (cache : SslCache)
    → IsKeyed b cache
    → Holds (λ r. IsVerifying b ca_cert r.0 × IsKeyed b r.1) (cached_ssl_connector b ca_cert cache)
unfolding cached_ssl_connector
cached_ssl_connector-IsVerifying b ca_cert cache k =
    go (cached ca_cert cache) (cached-Fits b ca_cert cache k)
  where
    entry :
        (o : Option SslConnector) (c : SslConnector)
        → Fits b ca_cert o
        → IsVerifying b ca_cert c
        → IsVerifying b ca_cert (entry_or_insert ca_cert c cache o).0
          × IsKeyed b (entry_or_insert ca_cert c cache o).1
    entry none c f h = (h, (h, k))
    entry (some present) c f h = (f, k)

    go :
        (o : Option SslConnector)
        → Fits b ca_cert o
        → Holds (λ r. IsVerifying b ca_cert r.0 × IsKeyed b r.1) (use_cached b ca_cert cache o)
    go (some c) f = (f, k)
    go none f =
        Holds->>= _ _ (build_ssl_connector b ca_cert) _ (build_ssl_connector-IsVerifying b ca_cert)
          (λ c h. entry (cached ca_cert cache) c (cached-Fits b ca_cert cache k) h)
