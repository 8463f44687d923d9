-- ===== src/Tokens/Bearer.antt =====
-- Which requests the server accepts, where the environment sets its tokens.
use mathlib.Core.Path.{subst}
use ech_rust.Base.Text.{Text, same, is_empty, trim, split}
use ech_rust.Base.{
  ◌≡◌, refl, sym, ap, ◌∙◌, ◌↔◌, true, false, not, ◌||◌, List, [], ◌∷◌, ok, err, guard, >>=-eq-ok,
  any, map, if◌then◌else◌, Bool-cases, inl, inr,
}
use ech_rust.Tokens.{
  TokenAuth, no_tokens, no_env_tokens, invalid_token, credentials, bearer_token, new, authenticate,
  non_empty, parse_tokens,
}

-- `token` is one of the texts.
abbrev pub Lists : List Text → Text → Type 0
Lists ts token = any (λ t. same t token) ts ≡ true

-- Dropping the empty texts drops no other one.
non_empty-any :
    (ts : List Text) (token : Text)
    → is_empty token ≡ false
    → any (λ t. same t token) (non_empty ts) ≡ any (λ t. same t token) ts
non_empty-any [] token h = refl
non_empty-any ([] ∷ ts) [] h = cc
non_empty-any ([] ∷ ts) (c ∷ cs) h = non_empty-any ts (c ∷ cs) h
non_empty-any ((c ∷ cs) ∷ ts) token h = ap (◌||◌ (same (c ∷ cs) token)) (non_empty-any ts token h)

-- With the tokens that `TOKENS` sets, a request is accepted as `token` exactly when that is what
-- its header says, it is not empty, and it is one of the texts between the commas, without the
-- white space around them.
pub authenticate-parse_tokens :
    (raw : Text) (ts : List Text) (auth : TokenAuth) (header token : Text)
    → parse_tokens raw ≡ ok ts
    → new ts ≡ ok auth
    → (authenticate auth (credentials header) ≡ ok token)
      ↔ (bearer_token header ≡ token)
        × (is_empty token ≡ false)
        × Lists (map trim (split b',' raw)) token
unfolding authenticate parse_tokens new
authenticate-parse_tokens raw ts auth header token parsed made =
    let pieces = map trim (split b',' raw) in
    let (_, _, p1) = >>=-eq-ok (guard (not (is_empty (non_empty pieces))) no_env_tokens) _ parsed in
    let (_, _, m1) = >>=-eq-ok (guard (not (is_empty ts)) no_tokens) _ made in
    let kept : non_empty pieces ≡ ts = cc in
    let stored : ts ≡ auth.tokens = ap (elim [ ok a ↦ a.tokens | err _ ↦ ts ]) m1 in
    subst
      (λ l.
        ((if is_empty (bearer_token header) || not (any (λ t. same t (bearer_token header)) l)
            then err invalid_token
            else ok (bearer_token header))
          ≡ ok token)
        ↔ (bearer_token header ≡ token) × (is_empty token ≡ false) × Lists pieces token)
      (kept ∙ stored) (forward pieces (bearer_token header), backward pieces (bearer_token header))
  where
    forward :
        (pieces : List Text) (t : Text)
        → (if is_empty t || not (any (λ u. same u t) (non_empty pieces))
            then err invalid_token
            else ok t)
          ≡ ok token
        → (t ≡ token) × (is_empty token ≡ false) × Lists pieces token
    forward pieces [] h = cc
    forward pieces (c ∷ cs) h =
        let kept = non_empty-any pieces (c ∷ cs) refl in
        elim (Bool-cases (any (λ u. same u (c ∷ cs)) (non_empty pieces))) [
          | inr out ↦ let h' = rw out at h in cc
          | inl hit ↦
              let eq : (c ∷ cs) ≡ token =
                let h' = rw hit at h in ap (elim [ ok u ↦ u | err _ ↦ c ∷ cs ]) h' in
              (
                eq,
                subst (λ u. is_empty u ≡ false) eq refl,
                subst (Lists pieces) eq (sym kept ∙ hit),
              )
        ]

    backward :
        (pieces : List Text) (t : Text)
        → (t ≡ token) × (is_empty token ≡ false) × Lists pieces token
        → (if is_empty t || not (any (λ u. same u t) (non_empty pieces))
            then err invalid_token
            else ok t)
          ≡ ok token
    backward pieces t (eq, some_char, listed) =
        rw (eq, some_char, non_empty-any pieces token some_char ∙ listed) refl
