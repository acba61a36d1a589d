-- ===== src/Auth/Totp/SingleUse.antt =====
-- A TOTP challenge is good for one answer.
pub mod Statements
pub mod Answers
use ucware_mail_server.Base.{
  ℕ, suc, ◌+◌, ◌*◌, ◌≡◌, ◌≢◌, refl, ap, ◌∙◌, sym, inl, inr, Bool, true, false, not, ◌||◌, Option,
  none, some, List, [], ◌∷◌, find?, filter, ltb, if◌then◌else◌, arith, Bool-cases, Option-cases,
}
use ucware_mail_server.Text.{Text, codes, text_eq}
use ucware_mail_server.Sql.{
  Error, no_rows, failed, Result, ok, err, Exec, update_where, delete_where,
}
use ucware_mail_server.Sql.Keeps.{Keeps}
use ucware_mail_server.RateLimit.{minute}
use ucware_mail_server.Text.Stamp.{stamp_lt}
use ucware_mail_server.Store.Types.{
  AdminUser, AuditLog, RefreshToken, TotpChallenge, Store, statement,
}
use ucware_mail_server.Store.Users.{insert_audit_log}
use ucware_mail_server.Store.Admins.{get_admin_user_by_email, is_admin}
use ucware_mail_server.Store.Tokens.{
  is_challenge, is_token, any, use_totp_challenge, purge_expired_totp_challenges,
  insert_refresh_token, attempt,
}
use ucware_mail_server.Http.{Request, Tokens, Outcome, got, sent, and_then, ◌>>=◌, ◌>>◌, pure}
use ucware_mail_server.Auth.State.{
  Config, Env, Service, H, query, or_else, require, internal, now, generate_refresh_token,
}
use ucware_mail_server.Auth.Tokens.{
  issue_tokens, issue_access_token, issue_refresh_token, tokens_for, day,
}
use ucware_mail_server.Auth.Totp.{answer_challenge, granted, challenge_failed, purge_challenges}

-- Every challenge of the id is used.
abbrev pub AllUsed : Text → List TotpChallenge → Type 0
AllUsed id [] = Unit
AllUsed id (ch ∷ rows) = (is_challenge id ch ≡ true → ch.used ≡ true) × AllUsed id rows

mark-AllUsed :
    (id : Text) (rows : List TotpChallenge)
    → AllUsed id (update_where (is_challenge id) (λ ch. record ch { used = true }) rows)
mark-AllUsed id [] = tt
mark-AllUsed id (ch ∷ rows) = elim (Bool-cases (is_challenge id ch)) [
  | inl e ↦ rw e (λ _. refl, mark-AllUsed id rows)
  | inr e ↦ rw e (λ n. cc, mark-AllUsed id rows)
]

filter-AllUsed :
    (id : Text) (p : TotpChallenge → Bool) (rows : List TotpChallenge)
    → AllUsed id rows
    → AllUsed id (filter p rows)
filter-AllUsed id p [] h = tt
filter-AllUsed id p (ch ∷ rows) h = elim (Bool-cases (p ch)) [
  | inl e ↦ rw e (h.0, filter-AllUsed id p rows h.1)
  | inr e ↦ rw e (filter-AllUsed id p rows h.1)
]

find?-AllUsed :
    (id : Text) (rows : List TotpChallenge) (ch : TotpChallenge)
    → AllUsed id rows
    → find? (is_challenge id) rows ≡ some ch
    → ch.used ≡ true
find?-AllUsed id [] ch h e = cc
find?-AllUsed id (x ∷ rows) ch h e = elim (Bool-cases (is_challenge id x)) [
  | inl m ↦ ground (arith, h.0 m, rw m at e)
  | inr m ↦ find?-AllUsed id rows ch h.1 (rw m at e)
]

find?-is_challenge :
    (id : Text) (rows : List TotpChallenge) (ch : TotpChallenge)
    → find? (is_challenge id) rows ≡ some ch
    → is_challenge id ch ≡ true
find?-is_challenge id [] ch e = cc
find?-is_challenge id (x ∷ rows) ch e = elim (Bool-cases (is_challenge id x)) [
  | inl m ↦ ground (arith, rw m at e)
  | inr m ↦ find?-is_challenge id rows ch (rw m at e)
]

none-AllUsed :
    (id : Text) (rows : List TotpChallenge) → find? (is_challenge id) rows ≡ none → AllUsed id rows
none-AllUsed id [] e = tt
none-AllUsed id (x ∷ rows) e = elim (Bool-cases (is_challenge id x)) [
  | inl m ↦ absurd (ground (arith, rw m at e))
  | inr m ↦ (λ n. absurd (ground arith), none-AllUsed id rows (rw m at e))
]

-- A store with such a list, and a handler that keeps it.
abbrev pub Spent : Text → Store → Type 0
Spent id s = AllUsed id s.totp_challenges

pub record Spends {A : Type 0} (id : Text) (m : H A) : Type 0 where
  pub at : (s : Service) → Spent id s.store → Spent id (m s).1.store

and_then-Spends :
    {A B : Type 0} (id : Text) (o : Outcome A × Service) (f : A → H B)
    → Spent id o.1.store
    → ((a : A) → Spends id (f a))
    → Spent id (and_then o f).1.store
and_then-Spends id (got a, s) f h k = (k a).at s h
and_then-Spends id (sent r, s) f h k = h

bind-Spends :
    {A B : Type 0} (id : Text) (m : H A) (f : A → H B)
    → Spends id m
    → ((a : A) → Spends id (f a))
    → Spends id (m >>= f)
bind-Spends id m f h k = record { at = λ s u. and_then-Spends id (m s) f (h.at s u) k }

or_else-Spends : {A : Type 0} (id : Text) (r : Result A) → Spends id (or_else r internal)
or_else-Spends id (ok a) = record { at = λ s u. u }
or_else-Spends id (err e) = record { at = λ s u. u }

query-Spends :
    {A : Type 0} (id : Text) (m : Exec Store A) → Keeps (Spent id) m → Spends id (query m internal)
query-Spends id m h = record {
  at = λ s u.
      (or_else-Spends id (m s.store).0).at (record s { store = (m s.store).1 }) (h.at s.store u);
}

require-Spends : (id : Text) (b : Bool) (f : H (Unit {0})) → Spends id f → Spends id (require b f)
require-Spends id true f h = record { at = λ s u. u }
require-Spends id false f h = h
