-- ===== src/Socks/Session.antt =====
-- Who gets past the SOCKS5 proxy.
use mathlib.Core.Path.{subst}
use ech_rust.Base.Text.{Text}
use ech_rust.Base.{
  ℕ, ◌≡◌, ap, ◌⊎◌, inl, inr, Bool, true, false, not, List, [], ◌∷◌, Option, none, some, ok, err,
  ◌>>=◌, >>=-eq-ok, arith, ◌==◌, ==_iff, Bool-cases, if◌then◌else◌,
}
use ech_rust.Router.{Names}
use ech_rust.Conn.{Conn}
use ech_rust.Socks.{
  Socks5Options, SocksError, bail, or_bail, contains, no_default_user, unknown_user,
  invalid_credentials, unsupported_version, unsupported_auth_version, no_acceptable_method,
  read_exact, read_u8, read_socks_string, write_all, choose_method, negotiate_auth, no_auth_user,
  password_user, authenticate, read_connect_request, session,
}
use ech_rust.Users.{UserProfile, AuthStore, user}
use ech_rust.Users

-- How a user may be admitted: as the default user, where the configuration allows clients that do
-- not authenticate, or by a name and a password that the store accepts.
abbrev pub Admits : Socks5Options → AuthStore → UserProfile → Type 0
Admits options auth u =
    (options.allow_no_auth ≡ true)
      × ((name : Text) × (options.default_user ≡ some name) × (user auth name ≡ some u))
    ⊎ ((name : Text) × (password : Text) × (Users.authenticate auth name password ≡ some u))

or_bail-eq-ok :
    {A : Type 0} (e : SocksError) (o : Option A) (c : Conn) {a : A} {c' : Conn}
    → or_bail e o c ≡ ok (a, c')
    → o ≡ some a
or_bail-eq-ok e none c h = cc
or_bail-eq-ok e (some a) c h = ap (elim [ ok p ↦ some p.0 | err _ ↦ some a ]) h

module _ (gone : ℕ → Bool) where
  -- Method 0 is chosen only where it is allowed.
  choose_method-allowed :
      (options : Socks5Options) (methods : List ℕ) (c c' : Conn)
      → choose_method gone options methods c ≡ ok (0, c')
      → options.allow_no_auth ≡ true
  unfolding choose_method
  choose_method-allowed options methods c c' e = elim (Bool-cases options.allow_no_auth) [
    | inl on ↦ on
    | inr off ↦ absurd (go (contains methods 2) (rw off at e))
  ]
    where
      go :
          (b : Bool)
          → (if b then (do (_, c1) ← write_all gone (5 ∷ 2 ∷ []) c; ok (2, c1)) else (do
            (_, c1) ← write_all gone (5 ∷ 0xff ∷ []) c
            bail {A = ℕ} no_acceptable_method c1))
            ≡ ok (0, c')
          → ⊥
      go true h =
          let (_, _, h1) = >>=-eq-ok (write_all gone (5 ∷ 2 ∷ []) c) _ h in
          let two : ◌≡◌ {A = ℕ} 2 0 = ap (elim [ ok p ↦ p.0 | err _ ↦ 2 ]) h1 in omega arith
      go false h = let (_, _, h1) = >>=-eq-ok (write_all gone (5 ∷ 0xff ∷ []) c) _ h in cc

  negotiate_auth-allowed :
      (options : Socks5Options) (c c' : Conn)
      → negotiate_auth gone options c ≡ ok (0, c')
      → options.allow_no_auth ≡ true
  unfolding negotiate_auth
  negotiate_auth-allowed options c c' e =
      let ((version, c1), _, e1) = >>=-eq-ok (read_u8 c) _ e in go version c1 (version == 5) e1
    where
      go :
          (version : ℕ) (c1 : Conn) (b : Bool)
          → (if not b then bail {A = ℕ} (unsupported_version version) c1 else (do
            (methods_len, c2) ← read_u8 c1
            (methods, c3) ← read_exact methods_len c2
            choose_method gone options methods c3))
            ≡ ok (0, c')
          → options.allow_no_auth ≡ true
      go version c1 false h = cc
      go version c1 true h =
          let ((n, c2), _, h1) = >>=-eq-ok (read_u8 c1) _ h in
          let ((methods, c3), _, h2) = >>=-eq-ok (read_exact n c2) _ h1 in
          choose_method-allowed options methods c3 c' h2

  no_auth_user-accepts :
      (options : Socks5Options) (auth : AuthStore) (c c' : Conn) (u : UserProfile)
      → no_auth_user gone options auth c ≡ ok (u, c')
      → (name : Text) × (options.default_user ≡ some name) × (user auth name ≡ some u)
  unfolding no_auth_user
  no_auth_user-accepts options auth c c' u e =
      let ((name, c1), found, e1) =
        >>=-eq-ok (or_bail no_default_user options.default_user c) _ e in
      (
        name,
        or_bail-eq-ok no_default_user options.default_user c found,
        or_bail-eq-ok (unknown_user name) (user auth name) c1 e1,
      )

  password_user-accepts :
      (auth : AuthStore) (c c' : Conn) (u : UserProfile)
      → password_user gone auth c ≡ ok (u, c')
      → (name : Text) × (password : Text) × (Users.authenticate auth name password ≡ some u)
  unfolding password_user
  password_user-accepts auth c c' u e =
      let ((name, c1), _, e1) = >>=-eq-ok (read_socks_string c) _ e in
      let ((password, c2), _, e2) = >>=-eq-ok (read_socks_string c1) _ e1 in
      (name, password, go name c2 (Users.authenticate auth name password) e2)
    where
      go :
          (name : Text) (c2 : Conn) (o : Option UserProfile)
          → (elim o [
            | some u ↦ do (_, c3) ← write_all gone (1 ∷ 0 ∷ []) c2; ok (u, c3)
            | none ↦ do
              (_, c3) ← write_all gone (1 ∷ 1 ∷ []) c2
              bail {A = UserProfile} (invalid_credentials name) c3
          ])
            ≡ ok (u, c')
          → o ≡ some u
      go name c2 none h = let (_, _, h1) = >>=-eq-ok (write_all gone (1 ∷ 1 ∷ []) c2) _ h in cc
      go name c2 (some v) h =
          let (_, _, h1) = >>=-eq-ok (write_all gone (1 ∷ 0 ∷ []) c2) _ h in
          ap (elim [ ok p ↦ some p.0 | err _ ↦ some v ]) h1

  authenticate-Admits :
      (options : Socks5Options) (auth : AuthStore) (method : ℕ) (c c' : Conn) (u : UserProfile)
      → (method ≡ 0 → options.allow_no_auth ≡ true)
      → authenticate gone options auth method c ≡ ok (u, c')
      → Admits options auth u
  unfolding authenticate
  authenticate-Admits options auth method c c' u allowed e = elim (Bool-cases (method == 0)) [
    | inl zero_method ↦ inl (
      allowed ((==_iff method 0).0 zero_method),
      no_auth_user-accepts options auth c c' u (rw zero_method at e),
    )
    | inr other ↦
        let e' = rw other at e in
        let ((version, c1), _, e1) = >>=-eq-ok (read_u8 c) _ e' in
        inr (go version c1 (version == 1) e1)
  ]
    where
      go :
          (version : ℕ) (c1 : Conn) (b : Bool)
          → (if not b
              then (do
                (_, c2) ← write_all gone (1 ∷ 1 ∷ []) c1
                bail {A = UserProfile} (unsupported_auth_version version) c2)
              else password_user gone auth c1)
            ≡ ok (u, c')
          → (name : Text) × (password : Text) × (Users.authenticate auth name password ≡ some u)
      go version c1 false h = let (_, _, h1) = >>=-eq-ok (write_all gone (1 ∷ 1 ∷ []) c1) _ h in cc
      go version c1 true h = password_user-accepts auth c1 c' u h

  pub session-Admits :
      (options : Socks5Options) (auth : AuthStore) (names : Names) (c c' : Conn) (u : UserProfile)
      (host : Text) (port : ℕ)
      → session gone options auth names c ≡ ok ((u, host, port), c')
      → Admits options auth u
  unfolding session
  session-Admits options auth names c c' u host port e =
      let ((method, c1), chosen, e1) = >>=-eq-ok (negotiate_auth gone options c) _ e in
      let ((v, c2), admitted, e2) = >>=-eq-ok (authenticate gone options auth method c1) _ e1 in
      let (((h, p), c3), _, e3) = >>=-eq-ok (read_connect_request gone names c2) _ e2 in
      let same_user : v ≡ u = ap (elim [ ok t ↦ t.0.0 | err _ ↦ v ]) e3 in
      subst (Admits options auth) same_user (
        authenticate-Admits options auth method c1 c2 v
          (λ none_needed.
            negotiate_auth-allowed options c c1
              (subst (λ m. negotiate_auth gone options c ≡ ok (m, c1)) none_needed chosen))
          admitted)
