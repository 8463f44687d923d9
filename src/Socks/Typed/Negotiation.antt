-- ===== src/Socks/Typed/Negotiation.antt =====
-- What the SOCKS5 proxy reads and writes until a user is accepted.
use ech_rust.Base.Text.{Text, Bytes}
use ech_rust.Base.{
  ℕ, refl, Bool, true, false, not, ◌&&◌, List, [], ◌∷◌, Option, none, some, ok, ◌>>=◌, ◌==◌,
  if◌then◌else◌, All,
}
use ech_rust.Conn.{Conn}
use ech_rust.Socks.{
  Socks5Options, SocksError, bail, or_bail, contains, no_acceptable_method, unsupported_version,
  no_default_user, unknown_user, invalid_credentials, unsupported_auth_version, read_exact, read_u8,
  read_socks_string, write_all, choose_method, negotiate_auth, no_auth_user, password_user,
  authenticate,
}
use ech_rust.Users.{UserProfile, AuthStore, user}
use ech_rust.Users
use ech_rust.Socks.Typed.{
  IsByte, IsConn, Typed, Anything, Typed->>=, Typed-or_bail, octets, read_exact-Typed,
  read_u8-Typed, read_socks_string-Typed, write_all-Typed,
}

module _ (gone : ℕ → Bool) where
  -- Writing some octets and going on with a value, or with an error.
  answer-Typed :
      {A : Type 0} (P : A → Type 0) (bytes : Bytes) (c : Conn) (a : A)
      → All IsByte bytes
      → IsConn c
      → P a
      → Typed P (do (_, c1) ← write_all gone bytes c; ok (a, c1))
  answer-Typed P bytes c a k h p =
      Typed->>= _ _ (write_all gone bytes c) _ (write_all-Typed gone bytes c k h)
        (λ u c1 _ h1. (p, h1))

  refusal-Typed :
      {A : Type 0} (P : A → Type 0) (bytes : Bytes) (c : Conn) (e : SocksError)
      → All IsByte bytes
      → IsConn c
      → Typed P (do (_, c1) ← write_all gone bytes c; bail {A = A} e c1)
  refusal-Typed P bytes c e k h =
      Typed->>= _ _ (write_all gone bytes c) _ (write_all-Typed gone bytes c k h) (λ u c1 _ h1. h1)

  choose_method-Typed :
      (options : Socks5Options) (methods : List ℕ) (c : Conn)
      → IsConn c
      → Typed Anything (choose_method gone options methods c)
  unfolding choose_method
  choose_method-Typed options methods c h =
      go (options.allow_no_auth && contains methods 0) (contains methods 2)
    where
      go :
          (b d : Bool)
          → Typed Anything (
              if b
              then (do (_, c1) ← write_all gone (5 ∷ 0 ∷ []) c; ok (0, c1))
              else if d
              then (do (_, c1) ← write_all gone (5 ∷ 2 ∷ []) c; ok (2, c1))
              else (do
                (_, c1) ← write_all gone (5 ∷ 0xff ∷ []) c
                bail {A = ℕ} no_acceptable_method c1))
      go true d = answer-Typed _ (5 ∷ 0 ∷ []) c 0 (octets (5 ∷ 0 ∷ []) refl) h tt
      go false true = answer-Typed _ (5 ∷ 2 ∷ []) c 2 (octets (5 ∷ 2 ∷ []) refl) h tt
      go false false =
          refusal-Typed _ (5 ∷ 0xff ∷ []) c no_acceptable_method (octets (5 ∷ 0xff ∷ []) refl) h

  pub negotiate_auth-Typed :
      (options : Socks5Options) (c : Conn)
      → IsConn c
      → Typed Anything (negotiate_auth gone options c)
  unfolding negotiate_auth
  negotiate_auth-Typed options c h =
      Typed->>= _ _ (read_u8 c) _ (read_u8-Typed c h)
        (λ version c1 _ h1. go version c1 (version == 5) h1)
    where
      go :
          (version : ℕ) (c1 : Conn) (b : Bool)
          → IsConn c1
          → Typed Anything (
              if not b then bail {A = ℕ} (unsupported_version version) c1 else (do
                (methods_len, c2) ← read_u8 c1
                (methods, c3) ← read_exact methods_len c2
                choose_method gone options methods c3))
      go version c1 false h1 = h1
      go version c1 true h1 = Typed->>= _ _ (read_u8 c1) _ (read_u8-Typed c1 h1) (λ n c2 _ h2.
          Typed->>= _ _ (read_exact n c2) _ (read_exact-Typed n c2 h2)
            (λ methods c3 _ h3. choose_method-Typed options methods c3 h3))

  password_user-Typed :
      (auth : AuthStore) (c : Conn) → IsConn c → Typed Anything (password_user gone auth c)
  unfolding password_user
  password_user-Typed auth c h =
      Typed->>= _ _ (read_socks_string c) _ (read_socks_string-Typed c h) (λ name c1 _ h1.
        Typed->>= _ _ (read_socks_string c1) _ (read_socks_string-Typed c1 h1)
          (λ password c2 _ h2. go name c2 (Users.authenticate auth name password) h2))
    where
      go :
          (name : Text) (c2 : Conn) (o : Option UserProfile)
          → IsConn c2
          → Typed Anything (elim o [
            | some u ↦ do (_, c3) ← write_all gone (1 ∷ 0 ∷ []) c2; ok (u, c3)
            | none ↦ do
              (_, c3) ← write_all gone (1 ∷ 1 ∷ []) c2
              bail {A = UserProfile} (invalid_credentials name) c3
          ])
      go name c2 (some u) h2 = answer-Typed _ (1 ∷ 0 ∷ []) c2 u (octets (1 ∷ 0 ∷ []) refl) h2 tt
      go name c2 none h2 =
          refusal-Typed _ (1 ∷ 1 ∷ []) c2 (invalid_credentials name) (octets (1 ∷ 1 ∷ []) refl) h2

  no_auth_user-Typed :
      (options : Socks5Options) (auth : AuthStore) (c : Conn)
      → IsConn c
      → Typed Anything (no_auth_user gone options auth c)
  unfolding no_auth_user
  no_auth_user-Typed options auth c h =
      Typed->>= Anything _ (or_bail no_default_user options.default_user c) _
        (Typed-or_bail _ no_default_user options.default_user c (λ a e. tt) h)
        (λ name c1 _ h1. Typed-or_bail _ (unknown_user name) (user auth name) c1 (λ a e. tt) h1)

  pub authenticate-Typed :
      (options : Socks5Options) (auth : AuthStore) (method : ℕ) (c : Conn)
      → IsConn c
      → Typed Anything (authenticate gone options auth method c)
  unfolding authenticate
  authenticate-Typed options auth method c h = go (method == 0)
    where
      checked :
          (version : ℕ) (c1 : Conn) (b : Bool)
          → IsConn c1
          → Typed Anything (
              if not b
              then (do
                (_, c2) ← write_all gone (1 ∷ 1 ∷ []) c1
                bail {A = UserProfile} (unsupported_auth_version version) c2)
              else password_user gone auth c1)
      checked version c1 false h1 =
          refusal-Typed _ (1 ∷ 1 ∷ []) c1 (unsupported_auth_version version)
            (octets (1 ∷ 1 ∷ []) refl) h1
      checked version c1 true h1 = password_user-Typed auth c1 h1

      go :
          (b : Bool)
          → Typed Anything (
              if b then no_auth_user gone options auth c else (do
                (version, c1) ← read_u8 c
                if not (version == 1)
                    then (do
                      (_, c2) ← write_all gone (1 ∷ 1 ∷ []) c1
                      bail (unsupported_auth_version version) c2)
                    else password_user gone auth c1))
      go true = no_auth_user-Typed options auth c h
      go false =
          Typed->>= _ _ (read_u8 c) _ (read_u8-Typed c h)
            (λ version c1 _ h1. checked version c1 (version == 1) h1)
