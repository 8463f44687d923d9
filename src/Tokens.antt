-- ===== src/Tokens.antt =====
-- server/src/auth.rs, and the part of server/src/config.rs that the environment decides.
pub mod Bearer
use ech_rust.Base.Text.{Text, codes, same, is_empty, trim, split, strip_prefix}
use ech_rust.Base.{
  Bool, true, false, not, ◌||◌, List, [], ◌∷◌, Option, none, some, Result, ok, err, ◌>>=◌, ◌>>◌,
  guard, or_else, unwrap_or, any, map, if◌then◌else◌,
}
use ech_rust.Policy.{PolicyConfig}

pub data TokensError : Type 0 where
  no_tokens no_env_tokens listen_empty : TokensError

-- The set of the tokens.
pub record TokenAuth : Type 0 where
  pub tokens : List Text

unfoldable pub new : List Text → Result TokensError TokenAuth
new tokens = do guard (not (is_empty tokens)) no_tokens; ok (record { tokens = tokens })

pub data Status : Type 0 where
  missing_metadata invalid_metadata invalid_token : Status

-- The `authorization` entry of the request: absent, not ASCII text, or its value.
pub data Authorization : Type 0 where
  absent unreadable : Authorization
  credentials : Text → Authorization

-- `to_str`, on an entry that is there.
abbrev pub header_text : Authorization → Result Status Text
header_text absent = err missing_metadata
header_text unreadable = err invalid_metadata
header_text (credentials t) = ok t

unfoldable pub bearer_token : Text → Text
bearer_token value = trim (
    unwrap_or
      (or_else (strip_prefix (codes "Bearer ") value) (strip_prefix (codes "bearer ") value)) value)

unfoldable pub authenticate : TokenAuth → Authorization → Result Status Text
unfolding bearer_token
authenticate auth metadata = do
  value ← header_text metadata
  let token = bearer_token value
  if is_empty token || not (any (λ t. same t token) auth.tokens)
      then err invalid_token
      else ok token

abbrev pub non_empty : List Text → List Text
non_empty [] = []
non_empty (t ∷ ts) = if is_empty t then non_empty ts else t ∷ non_empty ts

unfoldable pub parse_tokens : Text → Result TokensError (List Text)
parse_tokens raw = do
  let tokens = non_empty (map trim (split b',' raw))
  guard (not (is_empty tokens)) no_env_tokens
  ok tokens

-- `Config` with its three tables: `server` has the first three fields.
pub record Config : Type 0 where
  pub listen : Text
  pub cert : Option Text
  pub key : Option Text
  pub tokens : List Text
  pub policy : PolicyConfig

pub apply_listen : Option Text → Config → Result TokensError Config
apply_listen none config = ok config
apply_listen (some listen) config = do
  guard (not (is_empty (trim listen))) listen_empty
  ok (record config { listen = trim listen })

pub apply_tokens : Option Text → Config → Result TokensError Config
unfolding parse_tokens
apply_tokens none config = ok config
apply_tokens (some raw) config = do
  tokens ← parse_tokens raw
  ok (record config { tokens = tokens })

-- On the values of `LISTEN` and `TOKENS`.
unfoldable pub apply_env : Option Text → Option Text → Config → Result TokensError Config
unfolding apply_listen apply_tokens
apply_env listen tokens config = do
  listening ← apply_listen listen config
  apply_tokens tokens listening
