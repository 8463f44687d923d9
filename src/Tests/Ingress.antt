-- ===== src/Tests/Ingress.antt =====
-- A SOCKS5 client that logs in and asks for a target.
use ech_rust.Base.Text.{Text, codes}
use ech_rust.Base.Utf8.RoundTrip.{IsScalar}
use ech_rust.Base.Utf8.{as_bytes}
use ech_rust.Base.{
  ℕ, ◌≡◌, refl, Bool, true, false, [], ◌∷◌, ◌++◌, none, ok, arith, inl, All, all, ltb,
}
use ech_rust.Socks.Client.{hello, login, connect_domain, IsCounted, session-connect_domain}
use ech_rust.Conn.{Conn}
use ech_rust.Socks.{Socks5Options, session}
use ech_rust.Tests.Clients.{auth_store, alice_profile, names}
use ech_rust.Users.{authenticate}

abbrev pub never : ℕ → Bool
never n = false

abbrev pub options : Socks5Options
options = record { allow_no_auth = false; default_user = none }

abbrev pub client : Conn
client = record {
  input =
      (5 ∷ 2 ∷ 0 ∷ 2 ∷ [])
      ++ (1 ∷ 5 ∷ codes "alice")
      ++ (6 ∷ codes "secret")
      ++ (5 ∷ 1 ∷ 0 ∷ 3 ∷ 11 ∷ codes "example.org")
      ++ (1 ∷ 187 ∷ [])
      ++ codes "GET";
  output = [];
}

abbrev served : Conn
served = record { input = codes "GET"; output = (5 ∷ 2 ∷ []) ∷ (1 ∷ 0 ∷ []) ∷ [] }

ascii-IsScalar : (t : Text) → all (λ c. ltb c 0x80) t ≡ true → All IsScalar t
ascii-IsScalar [] h = tt
ascii-IsScalar (c ∷ cs) h = (inl (ground arith), ascii-IsScalar cs (ground arith))

alice-IsCounted : IsCounted (codes "alice")
unfolding as_bytes
alice-IsCounted = record { scalars = ascii-IsScalar (codes "alice") refl; fits = omega arith }

secret-IsCounted : IsCounted (codes "secret")
unfolding as_bytes
secret-IsCounted = record { scalars = ascii-IsScalar (codes "secret") refl; fits = omega arith }

domain-IsCounted : IsCounted (codes "example.org")
unfolding as_bytes
domain-IsCounted = record {
  scalars = ascii-IsScalar (codes "example.org") refl;
  fits = omega arith;
}

session-connect_domain_example :
    session never options auth_store names (record {
      input =
          hello (0 ∷ 2 ∷ [])
          ++ (login (codes "alice") (codes "secret")
              ++ (connect_domain (codes "example.org") 443 ++ codes "GET"));
      output = [];
    })
    ≡ ok ((alice_profile, codes "example.org", 443), served)
unfolding authenticate
session-connect_domain_example =
    session-connect_domain options auth_store names alice_profile (0 ∷ 2 ∷ []) (codes "alice")
      (codes "secret") (codes "example.org") 443 (codes "GET") refl refl (omega arith)
      alice-IsCounted secret-IsCounted domain-IsCounted (omega arith) (omega arith) refl
