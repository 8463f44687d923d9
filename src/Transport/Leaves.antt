-- ===== src/Transport/Leaves.antt =====
-- What an attempt for a channel leaves behind, step by step.
use ech_rust.Base.{◌≡◌, refl, ap, ◌∙◌, List, [], ◌∷◌, ◌++◌, Result, ok, err, ◌>>=◌}
use ech_rust.EchConnector.Verified.{IsKeyed}
use ech_rust.Tls.{
  TransportError, Endpoint, Boring, Action, posted, dialled, offered, connected_plain, World,
  Attempt, lift, act,
}
use ech_rust.Transport.{in_context}

-- The ordinary connections that were asked for.
abbrev pub plains : List Action → List Endpoint
plains [] = []
plains (connected_plain e ∷ log) = e ∷ plains log
plains (_ ∷ log) = plains log

plains-act :
    (log : List Action) (a : Action) → plains (a ∷ []) ≡ [] → plains (log ++ (a ∷ [])) ≡ plains log
plains-act [] a h = h
plains-act (connected_plain e ∷ log) a h = ap (◌∷◌ e) (plains-act log a h)
plains-act (posted doh query ∷ log) a h = plains-act log a h
plains-act (dialled addr ∷ log) a h = plains-act log a h
plains-act (offered s ∷ log) a h = plains-act log a h

-- Nothing ordinary was asked for since, and the connectors are still those for their files.
pub record Kept (b : Boring) (w w' : World) : Type 0 where
  pub no_plain : plains w'.log ≡ plains w.log
  pub keyed : IsKeyed b w'.ssl_cache

-- What an attempt leaves behind, and what it gives.
abbrev pub Leaves : {A : Type 0} → Boring → World → (A → Type 0) → Attempt A → Type 0
Leaves b w P (ok (a, w')) = Kept b w w' × P a
Leaves b w P (err e) = Kept b w e.world

Kept-trans : {b : Boring} {w w1 w2 : World} → Kept b w w1 → Kept b w1 w2 → Kept b w w2
Kept-trans h k = record { no_plain = k.no_plain ∙ h.no_plain; keyed = k.keyed }

pub Kept-act :
    {b : Boring} {w w1 : World} (a : Action)
    → plains (a ∷ []) ≡ []
    → Kept b w w1
    → Kept b w (act a w1)
Kept-act {w1 = w1} a h k = record { no_plain = plains-act w1.log a h ∙ k.no_plain; keyed = k.keyed }

module _ {A : Type 0} (b : Boring) where
  pub Leaves-from :
      (P : A → Type 0) (w w1 : World) (r : Attempt A)
      → Kept b w w1
      → Leaves b w1 P r
      → Leaves b w P r
  Leaves-from P w w1 (ok (a, w')) k h = (Kept-trans k h.0, h.1)
  Leaves-from P w w1 (err e) k h = Kept-trans k h

  pub Leaves->>= :
      {B : Type 0} (P : A → Type 0) (Q : B → Type 0) (w : World) (run : Attempt A)
      (k : A × World → Attempt B)
      → Leaves b w P run
      → ((a : A) (w1 : World) → Kept b w w1 → P a → Leaves b w Q (k (a, w1)))
      → Leaves b w Q (run >>= k)
  Leaves->>= P Q w (ok (a, w1)) k h step = step a w1 h.0 h.1
  Leaves->>= P Q w (err e) k h step = h

  pub Leaves-lift :
      (w w1 : World) (r : Result TransportError A)
      → Kept b w w1
      → Leaves b w (λ a. r ≡ ok a) (lift w1 r)
  Leaves-lift w w1 (ok a) k = (k, refl)
  Leaves-lift w w1 (err e) k = k

  pub Leaves-in_context :
      (P : A → Type 0) (f : TransportError → TransportError) (w : World) (r : Attempt A)
      → Leaves b w P r
      → Leaves b w P (in_context f r)
  Leaves-in_context P f w (ok r) h = h
  Leaves-in_context P f w (err e) h = h
