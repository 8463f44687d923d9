-- ===== src/Users.antt =====
-- client/src/auth.rs: the users of the proxy, and `validate_users_backends` of client/src/main.rs.
pub mod Grants
use ech_rust.Base.Maps.{Map, get, contains_key}
use ech_rust.Base.Text.{Text, same, is_empty}
use ech_rust.Base.{
  Bool, true, false, not, List, [], ◌∷◌, Option, none, some, Result, ok, err, ◌>>=◌, ◌>>◌, guard,
  ok_or, or_else, if◌then◌else◌,
}

-- client/src/config.rs
pub record UserConfig : Type 0 where
  pub backend : Text
  pub password : Option Text
  pub password_hash : Option Text

pub record UserProfile : Type 0 where
  pub username : Text
  pub password : Text
  pub backend : Text

pub data UsersError : Type 0 where
  no_users : UsersError
  password_missing : Text → UsersError
  backend_missing : Text → Text → UsersError

pub record AuthStore : Type 0 where
  pub users : Map UserProfile

pub user_profile : Text → UserConfig → Result UsersError UserProfile
user_profile name user = do
  secret ← ok_or (password_missing name) (or_else user.password user.password_hash)
  ok (record { username = name; password = secret; backend = user.backend })

-- The loop over the map. The order in which a map is walked is not specified; only the choice of
-- the user that an error names depends on it.
pub user_profiles : Map UserConfig → Result UsersError (Map UserProfile)
unfolding user_profile
user_profiles [] = ok []
user_profiles ((name, user) ∷ rest) = do
  profile ← user_profile name user
  profiles ← user_profiles rest
  ok ((name, profile) ∷ profiles)

unfoldable pub from_config : Map UserConfig → Result UsersError AuthStore
unfolding user_profiles
from_config users = do
  guard (not (is_empty users)) no_users
  profiles ← user_profiles users
  ok (record { users = profiles })

unfoldable pub user : AuthStore → Text → Option UserProfile
user store name = get name store.users

unfoldable pub authenticate : AuthStore → Text → Text → Option UserProfile
authenticate store name password = elim (get name store.users) [
  | none ↦ none
  | some user ↦ if same user.password password then some user else none
]

-- `validate_users_backends`
unfoldable pub validate_users_backends {ℓ} :
    {B : Type ℓ} → Map UserConfig → Map B → Result UsersError (Unit {0})
validate_users_backends [] backends = ok tt
validate_users_backends ((name, user) ∷ rest) backends = do
  guard (contains_key user.backend backends) (backend_missing name user.backend)
  validate_users_backends rest backends
