-- ===== src/Server/Calls.antt =====
-- Which calls a started server connects for.
use mathlib.Core.Path.{subst}
use ech_rust.Base.Text.{Text, same, is_empty}
use ech_rust.Base.{
  ◌≡◌, ◌≢◌, refl, sym, ap, ◌∙◌, ◌⊎◌, true, false, not, List, [], ◌∷◌, Option, Result, ok, err,
  ◌>>=◌, ok_or, guard, map_err, any, Holds, Holds->>=, Holds-refl, Holds-ok, Holds-ok_or, >>=-eq-ok,
  Bool-cases, inl, inr,
}
use ech_rust.Policy.{Policy, from_config}
use ech_rust.Server.{
  bad_tokens, bad_policy, invalid_listen, Started, Host, load, identity, start_with, start, tunnel,
}
use ech_rust.Service.Tunnel.{Admitted, handle_tunnel-Admitted, written, open_results}
use ech_rust.Service.{Env, Event, Effect, handle_tunnel}
use ech_rust.Tokens.Bearer.{Lists}
use ech_rust.Tokens.{
  TokenAuth, Authorization, absent, unreadable, credentials, Config, no_tokens, bearer_token, new,
  authenticate,
}

-- A call with a token of the configuration, whose first frame asks for a target that the policy of
-- the configuration permits and that was reached.
pub record IsServed (env : Env) (config : Config) (metadata : Authorization) (events : List Event)
    : Type 0 where
  pub header : Text
  pub presented : metadata ≡ credentials header
  pub not_empty : is_empty (bearer_token header) ≡ false
  pub listed : Lists config.tokens (bearer_token header)
  pub policy : Policy
  pub configured : from_config config.policy ≡ ok policy
  pub admitted : Admitted env policy events

Holds-map_err : {E F A : Type 0} (f : E → F) (r : Result E A) → Holds (λ a. r ≡ ok a) (map_err f r)
Holds-map_err f (ok a) = refl
Holds-map_err f (err e) = tt

-- What the service of a started server is made of.
record IsOf (config : Config) (s : Started) : Type 0 where
  tokens : new config.tokens ≡ ok s.service.auth
  policy : from_config config.policy ≡ ok s.service.policy

start_with-IsOf : (host : Host) (config : Config) → Holds (IsOf config) (start_with host config)
unfolding start_with
start_with-IsOf host config =
    Holds->>= _ _ (ok_or invalid_listen (host.parse_addr config.listen)) _
      (Holds-ok_or invalid_listen (host.parse_addr config.listen))
      (λ addr h1.
        Holds->>= _ _ (map_err bad_tokens (new config.tokens)) _
          (Holds-map_err bad_tokens (new config.tokens))
          (λ auth made.
            Holds->>= _ _ (map_err bad_policy (from_config config.policy)) _
              (Holds-map_err bad_policy (from_config config.policy))
              (λ policy built.
                Holds->>= _ _ (identity host config.cert config.key) _
                  (Holds-refl (identity host config.cert config.key))
                  (λ id h4. record { tokens = made; policy = built }))))

-- An accepted header.
record IsAuthentic (tokens : List Text) (metadata : Authorization) : Type 0 where
  header : Text
  presented : metadata ≡ credentials header
  not_empty : is_empty (bearer_token header) ≡ false
  listed : Lists tokens (bearer_token header)

authenticate-IsAuthentic :
    (tokens : List Text) (auth : TokenAuth) (metadata : Authorization)
    → new tokens ≡ ok auth
    → Holds (λ token. IsAuthentic tokens metadata) (authenticate auth metadata)
unfolding authenticate new
authenticate-IsAuthentic tokens auth absent made = tt
authenticate-IsAuthentic tokens auth unreadable made = tt
authenticate-IsAuthentic tokens auth (credentials header) made =
    elim (Bool-cases (is_empty (bearer_token header))) [
      | inl nothing ↦ rw nothing tt
      | inr something ↦ elim (Bool-cases (any (λ t. same t (bearer_token header)) auth.tokens)) [
        | inr missing ↦ rw (something, missing) tt
        | inl there ↦
            rw (something, there)
              record {
                header = header;
                presented = refl;
                not_empty = something;
                listed = ap (λ l. any (λ t. same t (bearer_token header)) l) stored ∙ there;
              }
      ]
    ]
  where
    stored : tokens ≡ auth.tokens
    stored =
        let (_, _, kept) = >>=-eq-ok (guard (not (is_empty tokens)) no_tokens) _ made in
        ap (elim [ ok a ↦ a.tokens | err _ ↦ tokens ]) kept

-- A started server writes bytes to a target, or reports an open target, only in a call whose header
-- has a token of the configuration, and only where the call's first frame asks for a target that the
-- policy of the configuration permits and that was reached at an address it permits.
pub tunnel-IsServed :
    (host : Host) (path listen tokens : Option Text) (config : Config) (s : Started) (env : Env)
    (metadata : Authorization) (events : List Event) (log : List Effect)
    → load host path listen tokens ≡ ok config
    → start host path listen tokens ≡ ok s
    → tunnel env s.service metadata events ≡ ok log
    → (written log ≢ []) ⊎ (open_results log ≡ true ∷ [])
    → IsServed env config metadata events
unfolding start tunnel
tunnel-IsServed host path listen tokens config s env metadata events log loaded started called
      shown =
    let begun : start_with host config ≡ ok s =
      ap (λ r. r >>= start_with host) (sym loaded) ∙ started in
    let of = Holds-ok _ _ s (start_with-IsOf host config) begun in
    let (principal, accepted, rest) = >>=-eq-ok (authenticate s.service.auth metadata) _ called in
    let known =
      Holds-ok _ _ principal
        (authenticate-IsAuthentic config.tokens s.service.auth metadata of.tokens) accepted in
    let same_log : handle_tunnel env s.service.policy events ≡ log =
      ap (elim [ ok l ↦ l | err _ ↦ log ]) rest in
    record {
      header = known.header;
      presented = known.presented;
      not_empty = known.not_empty;
      listed = known.listed;
      policy = s.service.policy;
      configured = of.policy;
      admitted =
          handle_tunnel-Admitted env s.service.policy events
            (subst (λ l. (written l ≢ []) ⊎ (open_results l ≡ true ∷ [])) (sym same_log) shown);
    }
