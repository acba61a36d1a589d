-- ===== src/Http/Ends.antt =====
-- How a handler ends: it goes on with a value, or it has answered.
use ucware_mail_server.Base.{◌≤◌, ◌⊎◌}
use ucware_mail_server.Http.{Response, Outcome, got, sent, Handler, ◌>>=◌, and_then}

module _ {S A : Type 0} where
  -- `P` of the value it goes on with, or `Q` of the answer, and of the state.
  abbrev pub Ends : (A → S → Type 0) → (Response → S → Type 0) → Outcome A × S → Type 0
  Ends P Q (got a, s) = P a s
  Ends P Q (sent r, s) = Q r s

module _ {S A B : Type 0} (Q : Response → S → Type 0) (P : A → S → Type 0)
    (R : B → S → Type 0) where
  and_then-Ends :
      (k : A → Handler S B) (o : Outcome A × S)
      → Ends P Q o
      → ((a : A) (s : S) → P a s → Ends R Q (k a s))
      → Ends R Q (and_then o k)
  and_then-Ends k (got a, s) h g = g a s h
  and_then-Ends k (sent r, s) h g = h

  pub bind-Ends :
      (m : Handler S A) (k : A → Handler S B) (s : S)
      → Ends P Q (m s)
      → ((a : A) (t : S) → P a t → Ends R Q (k a t))
      → Ends R Q ((m >>= k) s)
  bind-Ends m k s h g = and_then-Ends k (m s) h g

-- The answer refuses the request, or else `X` holds of the state.
abbrev pub RefusedOr : {S : Type 0} → (S → Type 0) → Response → S → Type 0
RefusedOr X r s = (400 ≤ r.status) ⊎ X s

abbrev pub Any : {S A : Type 0} → A → S → Type 0
Any a s = Unit

abbrev pub Never : {S A : Type 0} → A → S → Type 0
Never a s = ⊥
