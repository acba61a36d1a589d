-- ===== src/Auth/Granting.antt =====
-- Handlers by the tokens that they may answer with, whatever the database and the clock do.
use ucware_mail_server.Base.{ℕ, ◌≡◌, ◌≢◌, arith, refl, Bool, true, false}
use ucware_mail_server.Text.{Text}
use ucware_mail_server.Sql.{Error, Result, ok, err, Exec}
use ucware_mail_server.Store.Types.{Store}
use ucware_mail_server.Http.{
  Request, Body, Outcome, got, sent, pure, modify, http_error, and_then, Tokens, ◌>>=◌, login,
}
use ucware_mail_server.Auth.State.{Env, Service, H, query, or_else, internal, require, refuse}

-- An outcome whose tokens, where it has some, are ones that `P` holds of.
abbrev pub OfTokens : (Tokens → Type 0) → Body → Type 0
OfTokens P (login t) = P t
OfTokens P _ = Unit

abbrev pub Grants : {A : Type 0} → (Tokens → Type 0) → Outcome A → Type 0
Grants P (got a) = Unit
Grants P (sent r) = OfTokens P r.body

-- A chain that goes on to the end goes on at each step.
pub and_then-got :
    {A B : Type 0} (o : Outcome A × Service) (f : A → H B) (b : B)
    → (and_then o f).0 ≡ got b
    → (a : A) × (o.0 ≡ got a) × ((f a o.1).0 ≡ got b)
and_then-got (got a, s) f b h = (a, refl, h)
and_then-got (sent r, s) f b h = cc

pub or_else-got :
    {A : Type 0} (r : Result A) (f : Error → H A) (s : Service) (a : A)
    → ((e : Error) (b : A) → (f e s).0 ≢ got b)
    → (or_else r f s).0 ≡ got a
    → r ≡ ok a
or_else-got (ok b) f s a n h = ground arith
or_else-got (err e) f s a n h = absurd (n e a h)

-- A handler all of whose tokens are such.
pub record Only {A : Type 0} (P : Tokens → Type 0) (m : H A) : Type 0 where
  pub at : (s : Service) → Grants P (m s).0

pub and_then-Grants :
    {A B : Type 0} (P : Tokens → Type 0) (o : Outcome A × Service) (f : A → H B)
    → Grants P o.0
    → ((a : A) → o.0 ≡ got a → Grants P (f a o.1).0)
    → Grants P (and_then o f).0
and_then-Grants P (got a, s) f h k = k a refl
and_then-Grants P (sent r, s) f h k = h

module _ {P : Tokens → Type 0} where
  pub bind-Only :
      {A B : Type 0} (m : H A) (f : A → H B)
      → Only P m
      → ((a : A) → Only P (f a))
      → Only P (m >>= f)
  bind-Only m f h k = record {
    at = λ s. and_then-Grants P (m s) f (h.at s) (λ a _. (k a).at (m s).1);
  }

  pub pure-Only : {A : Type 0} (a : A) → Only P (pure a)
  pure-Only a = record { at = λ s. tt }

  pub modify-Only : (f : Service → Service) → Only P (modify f)
  modify-Only f = record { at = λ s. tt }

  pub http_error-Only :
      {A : Type 0} (status : ℕ) (why : Text) → Only {A = A} P (http_error status why)
  http_error-Only status why = record { at = λ s. tt }

  pub internal-Only : {A : Type 0} (e : Error) → Only {A = A} P (internal e)
  internal-Only e = record { at = λ s. tt }

  pub or_else-Only :
      {A : Type 0} (r : Result A) (f : Error → H A)
      → ((e : Error) → Only P (f e))
      → Only P (or_else r f)
  or_else-Only (ok a) f h = pure-Only a
  or_else-Only (err e) f h = h e

  pub query-Only :
      {A : Type 0} (m : Exec Store A) (f : Error → H A)
      → ((e : Error) → Only P (f e))
      → Only P (query m f)
  query-Only m f h = record {
    at = λ s. (or_else-Only (m s.store).0 f h).at (record s { store = (m s.store).1 });
  }

  pub require-Only : (b : Bool) (f : H (Unit {0})) → Only P f → Only P (require b f)
  require-Only true f h = pure-Only tt
  require-Only false f h = h

  pub refuse-Only :
      {A : Type 0} (env : Env) (r : Request) (status : ℕ) (why action actor email message : Text)
      → Only {A = A} P (refuse env r status why action actor email message)
  refuse-Only env r status why action actor email message = record { at = λ s. tt }
