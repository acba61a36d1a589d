-- ===== src/Sql/Keeps.antt =====
-- An invariant of the tables passes through a chain of statements, whichever of them fails.
use ucware_mail_server.Sql.{
  Error, Result, ok, err, Exec, pure, raise, gets, modify, and_then, ◌>>=◌,
}

pub record Keeps {S A : Type 0} (P : S → Type 0) (m : Exec S A) : Type 0 where
  pub at : (s : S) → P s → P (m s).1

module _ {S : Type 0} {P : S → Type 0} where
  pub and_then-Keeps :
      {A B : Type 0} (k : A → Exec S B) (r : Result A × S)
      → ((a : A) → Keeps P (k a))
      → P r.1
      → P (and_then r k).1
  and_then-Keeps k (ok a, s) h p = (h a).at s p
  and_then-Keeps k (err e, s) h p = p

  pub bind-Keeps :
      {A B : Type 0} (m : Exec S A) (k : A → Exec S B)
      → Keeps P m
      → ((a : A) → Keeps P (k a))
      → Keeps P (m >>= k)
  bind-Keeps m k h g = record { at = λ s p. and_then-Keeps k (m s) g (h.at s p) }

  pub pure-Keeps : {A : Type 0} (a : A) → Keeps P (pure a)
  pure-Keeps a = record { at = λ s p. p }

  pub raise-Keeps : {A : Type 0} (e : Error) → Keeps P (raise {A = A} e)
  raise-Keeps e = record { at = λ s p. p }

  pub gets-Keeps : {A : Type 0} (f : S → A) → Keeps P (gets f)
  gets-Keeps f = record { at = λ s p. p }

  pub modify-Keeps : (f : S → S) → ((s : S) → P s → P (f s)) → Keeps P (modify f)
  modify-Keeps f h = record { at = h }
