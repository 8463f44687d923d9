-- ===== src/Users/Grants.antt =====
-- Whom the proxy lets in, and where it sends them.
use mathlib.Core.Path.{subst}
use ech_rust.Base.Maps.{Map, get}
use ech_rust.Base.Text.{Text, same, same→≡, same_refl, is_empty}
use ech_rust.Base.{
  or_else, ◌≡◌, refl, sym, ap, ◌∙◌, ◌↔◌, not, [], ◌∷◌, Option, none, some, ok, err, ◌>>=◌,
  Bool-cases, inl, inr, guard, ok_or, >>=-eq-ok, arith, if◌then◌else◌,
}
use ech_rust.Users.{
  UserConfig, UserProfile, AuthStore, no_users, password_missing, user_profile, user_profiles,
  from_config, user, authenticate,
}

-- The configuration has the user with this password, under `password` or else `password_hash`.
pub record Grants (users : Map UserConfig) (name password : Text) (p : UserProfile) : Type 0 where
  pub entry : UserConfig
  pub listed : get name users ≡ some entry
  pub secret : or_else entry.password entry.password_hash ≡ some password
  pub profile : p ≡ record { username = name; password = password; backend = entry.backend }

-- What the store holds for a name.
abbrev pub expected : Text → Option UserConfig → Option UserProfile
expected name none = none
expected name (some u) = elim (or_else u.password u.password_hash) [
  | none ↦ none
  | some secret ↦ some (record { username = name; password = secret; backend = u.backend })
]

pub ok_or-eq-ok {κ ℓ} :
    {E : Type κ} {A : Type ℓ} (e : E) (o : Option A) {a : A} → ok_or e o ≡ ok a → o ≡ some a
ok_or-eq-ok e none h = cc
ok_or-eq-ok e (some a) h = cc

user_profile-expected :
    (name : Text) (u : UserConfig) (p : UserProfile)
    → user_profile name u ≡ ok p
    → expected name (some u) ≡ some p
unfolding user_profile
user_profile-expected name u p e = go (or_else u.password u.password_hash) e
  where
    go :
        (o : Option Text)
        → (ok_or (password_missing name) o >>= λ secret.
            ok (record { username = name; password = secret; backend = u.backend }))
          ≡ ok p
        → (elim o [
          | none ↦ none
          | some secret ↦ some (record { username = name; password = secret; backend = u.backend })
        ])
          ≡ some p
    go none h = cc
    go (some secret) h = cc

user_profiles-get :
    (users : Map UserConfig) (profiles : Map UserProfile) (key : Text)
    → user_profiles users ≡ ok profiles
    → get key profiles ≡ expected key (get key users)
unfolding user_profiles
user_profiles-get [] profiles key e =
    let same_map : [] ≡ profiles = cc in subst (λ m. get key m ≡ none) same_map refl
user_profiles-get ((name, u) ∷ rest) profiles key e =
    let (p, made, e1) = >>=-eq-ok (user_profile name u) _ e in
    let (ps, others, e2) = >>=-eq-ok (user_profiles rest) _ e1 in
    let same_map : ((name, p) ∷ ps) ≡ profiles = cc in
    subst (λ m. get key m ≡ expected key (get key ((name, u) ∷ rest))) same_map
      (elim (Bool-cases (same name key)) [
        | inl hit ↦ rw hit (
            sym (
              subst (λ n. expected n (some u) ≡ some p) (same→≡ name key hit)
                (user_profile-expected name u p made)))
        | inr miss ↦ rw miss (user_profiles-get rest ps key others)
      ])

pub from_config-user :
    (users : Map UserConfig) (store : AuthStore) (name : Text)
    → from_config users ≡ ok store
    → user store name ≡ expected name (get name users)
unfolding from_config user
from_config-user users store name e =
    let (_, _, e1) = >>=-eq-ok (guard (not (is_empty users)) no_users) _ e in
    let (ps, built, e2) = >>=-eq-ok (user_profiles users) _ e1 in
    let same_map : ps ≡ store.users = ap (elim [ ok s ↦ s.users | err _ ↦ ps ]) e2 in
    subst (λ m. get name m ≡ expected name (get name users)) same_map
      (user_profiles-get users ps name built)

authenticate-eq :
    (store : AuthStore) (name password : Text) (p : UserProfile)
    → (authenticate store name password ≡ some p)
      ↔ (user store name ≡ some p) × (p.password ≡ password)
unfolding authenticate user
authenticate-eq store name password p = go (get name store.users)
  where
    go :
        (o : Option UserProfile)
        → ((elim o [ none ↦ none | some q ↦ if same q.password password then some q else none ])
            ≡ some p)
          ↔ (o ≡ some p) × (p.password ≡ password)
    go none = (λ h. cc, λ h. cc)
    go (some q) = (forward, λ h. backward h)
      where
        forward :
            (if same q.password password then some q else none) ≡ some p
            → (some q ≡ some p) × (p.password ≡ password)
        forward h = ground (arith, same→≡ q.password password)

        backward :
            (some q ≡ some p) × (p.password ≡ password)
            → (if same q.password password then some q else none) ≡ some p
        backward h = ground (arith, same_refl password)

expected-eq-some :
    (name : Text) (o : Option UserConfig) (p : UserProfile)
    → expected name o ≡ some p
    → (u : UserConfig) × (o ≡ some u)
      × (or_else u.password u.password_hash ≡ some p.password)
      × (p ≡ record { username = name; password = p.password; backend = u.backend })
expected-eq-some name none p h = cc
expected-eq-some name (some u) p h =
    let found = go (or_else u.password u.password_hash) h in (u, refl, found.0, found.1)
  where
    go :
        (o : Option Text)
        → (elim o [
          | none ↦ none
          | some secret ↦ some (record { username = name; password = secret; backend = u.backend })
        ])
          ≡ some p
        → (o ≡ some p.password)
          × (p ≡ record { username = name; password = p.password; backend = u.backend })
    go none h = cc
    go (some secret) h =
        let made : record { username = name; password = secret; backend = u.backend } ≡ p = cc in
        subst
          (λ q.
            (some secret ≡ some q.password)
            × (q ≡ record { username = name; password = q.password; backend = u.backend }))
          made (refl, refl)

expected-some :
    (name : Text) (u : UserConfig) (secret : Text)
    → or_else u.password u.password_hash ≡ some secret
    → expected name (some u)
      ≡ some (record { username = name; password = secret; backend = u.backend })
expected-some name u secret h =
    ap
      (elim [
        | none ↦ none
        | some w ↦ some (record { username = name; password = w; backend = u.backend })
      ])
      h

-- Where the configuration is accepted, a name and a password are accepted as the profile `p`
-- exactly when the configuration lists the name with that password, as `password` or, where that
-- is missing, as `password_hash`, and `p` is that entry's profile.
pub authenticate-Grants :
    (users : Map UserConfig) (store : AuthStore) (name password : Text) (p : UserProfile)
    → from_config users ≡ ok store
    → (authenticate store name password ≡ some p) ↔ Grants users name password p
authenticate-Grants users store name password p e = (there, back)
  where
    there : authenticate store name password ≡ some p → Grants users name password p
    there h =
        let (held, matches) = (authenticate-eq store name password p).0 h in
        let (u, listed, secret, made) =
          expected-eq-some name (get name users) p
            (sym (from_config-user users store name e) ∙ held) in
        subst (λ w. Grants users name w p) matches
          (record { entry = u; listed = listed; secret = secret; profile = made })

    back : Grants users name password p → authenticate store name password ≡ some p
    back g = (authenticate-eq store name password p).1 (
      from_config-user users store name e
          ∙ rw g.listed (expected-some name g.entry password g.secret ∙ ap some (sym g.profile)),
      ap (λ (q : UserProfile). q.password) g.profile,
    )

-- The profile that the store holds for a name is one that the configuration lists, with its own
-- password.
pub user-Grants :
    (users : Map UserConfig) (store : AuthStore) (name : Text) (p : UserProfile)
    → from_config users ≡ ok store
    → user store name ≡ some p
    → Grants users name p.password p
user-Grants users store name p e held =
    let (u, listed, secret, made) =
      expected-eq-some name (get name users) p (sym (from_config-user users store name e) ∙ held) in
    record { entry = u; listed = listed; secret = secret; profile = made }
