-- ===== src/Auth/Totp/SingleUse/Answers.antt =====
-- Two answers to one challenge.
use ucware_mail_server.Base.{
  ℕ, ◌+◌, ◌≡◌, ◌≢◌, refl, ◌∙◌, inl, inr, false, not, ◌||◌, none, some, find?, ltb, arith,
  Bool-cases, Option-cases,
}
use ucware_mail_server.Text.{Text, codes}
use ucware_mail_server.Text.Equality.{text_eq_iff}
use ucware_mail_server.Sql.{Error, no_rows, failed, Result, ok, err}
use ucware_mail_server.Store.Types.{AdminUser, TotpChallenge, Store, statement}
use ucware_mail_server.Store.Admins.{get_admin_user_by_email}
use ucware_mail_server.Store.Tokens.{is_challenge, mark_used, use_totp_challenge, attempt}
use ucware_mail_server.Http.{Request, got, ◌>>=◌, ◌>>◌}
use ucware_mail_server.Auth.State.{Config, Env, Service, H, query, or_else, require, internal, now}
use ucware_mail_server.Auth.Granting.{Only, and_then-Grants, or_else-got, query-Only}
use ucware_mail_server.Auth.Sessions.{missing}
use ucware_mail_server.Auth.Sessions.Revocation.{NoTokens}
use ucware_mail_server.Auth.Totp.{answer_challenge, granted, challenge_failed}
use ucware_mail_server.Auth.Totp.SingleUse.{
  Spent, Spends, bind-Spends, query-Spends, require-Spends, mark-AllUsed, find?-AllUsed,
  find?-is_challenge, and_then-Spends,
}
use ucware_mail_server.Auth.Totp.SingleUse.Statements.{
  same-Keeps, get_admin-challenges, refuse-Spends, granted-Spends,
}

module _ (env : Env) (c : Config) (id : Text) where
  -- What follows the use of the challenge.
  abbrev after_code : Request → TotpChallenge → Text → AdminUser → ℕ → H (Unit {0})
  after_code r ch code a t =
      require (env.totp_validate t code a.totp_secret)
        (challenge_failed env c r ch (codes "invalid totp code") (codes "wrong code"))
      >> granted env c r a

  abbrev after_expiry : Request → TotpChallenge → Text → H (Unit {0})
  after_expiry r ch code =
      query (get_admin_user_by_email env.fault ch.admin_email) internal >>= λ a.
      now env >>= after_code r ch code a

  abbrev after_use : Request → Text → TotpChallenge → H (Unit {0})
  after_use r code ch = now env >>= λ t.
      require (not (ch.used || ltb ch.expires_at t)) (
        challenge_failed env c r ch (codes "challenge token expired or already used")
          (codes "expired/used"))
      >> after_expiry r ch code

  after_code-Spends :
      (r : Request) (ch : TotpChallenge) (code : Text) (a : AdminUser) (t : ℕ)
      → Spends id (after_code r ch code a t)
  after_code-Spends r ch code a t =
      bind-Spends id
        (require (env.totp_validate t code a.totp_secret)
          (challenge_failed env c r ch (codes "invalid totp code") (codes "wrong code")))
        (λ _. granted env c r a)
        (require-Spends id (env.totp_validate t code a.totp_secret) _ (record {
          at =
              (refuse-Spends env c id {A = Unit {0}} r 401 (codes "invalid totp code")
                (codes "totp_challenge") ch.admin_email ch.admin_email (codes "wrong code")).at;
        }))
        λ _. granted-Spends env c id r a

  after_expiry-Spends :
      (r : Request) (ch : TotpChallenge) (code : Text) → Spends id (after_expiry r ch code)
  after_expiry-Spends r ch code =
      bind-Spends id (query (get_admin_user_by_email env.fault ch.admin_email) internal)
        (λ a. now env >>= after_code r ch code a)
        (query-Spends id (get_admin_user_by_email env.fault ch.admin_email)
          (same-Keeps id _ (get_admin-challenges env.fault ch.admin_email)))
        λ a.
          bind-Spends id (now env) (after_code r ch code a) (record { at = λ s u. u })
            λ t. after_code-Spends r ch code a t

  after_use-Spends :
      (r : Request) (code : Text) (ch : TotpChallenge) → Spends id (after_use r code ch)
  after_use-Spends r code ch =
      bind-Spends id (now env) _ (record { at = λ s u. u })
        λ t.
          bind-Spends id
            (require (not (ch.used || ltb ch.expires_at t)) (
              challenge_failed env c r ch (codes "challenge token expired or already used")
                (codes "expired/used")))
            (λ _. after_expiry r ch code)
            (require-Spends id (not (ch.used || ltb ch.expires_at t)) _ (record {
              at =
                  (refuse-Spends env c id {A = Unit {0}} r 401
                    (codes "challenge token expired or already used") (codes "totp_challenge")
                    ch.admin_email ch.admin_email (codes "expired/used")).at;
            }))
            λ _. after_expiry-Spends r ch code

  -- Where the SELECT and the UPDATE go through, a fresh challenge is used up.
  use-Spent :
      (s : Store) (ch : TotpChallenge)
      → find? (is_challenge id) s.totp_challenges ≡ some ch
      → ch.used ≡ false
      → env.fault s.statements ≡ none
      → env.fault (s.statements + 1) ≡ none
      → Spent id (use_totp_challenge env.fault id s).1
  unfolding use_totp_challenge attempt mark_used
  use-Spent s ch m u e f =
      rw
        (
          statement,
          e,
          m,
          u,
          statement,
          f,
          (text_eq_iff ch.id id).0 (find?-is_challenge id s.totp_challenges ch m),
        )
        (mark-AllUsed id s.totp_challenges)

  missing-store :
      {A : Type 0} (r : Result A) (s : Service) → (or_else r missing s).1.store ≡ s.store
  missing-store (ok a) s = refl
  missing-store (err no_rows) s = refl
  missing-store (err (failed why)) s = refl

  answer-Spent :
      (r : Request) (code : Text) (s : Service) (ch : TotpChallenge)
      → find? (is_challenge id) s.store.totp_challenges ≡ some ch
      → ch.used ≡ false
      → env.fault s.store.statements ≡ none
      → env.fault (s.store.statements + 1) ≡ none
      → Spent id (answer_challenge env c r id code s).1.store
  unfolding answer_challenge
  answer-Spent r code s ch m u e f =
      and_then-Spends id (query (use_totp_challenge env.fault id) missing s) (after_use r code)
        (rw
          (missing-store (use_totp_challenge env.fault id s.store).0
            (record s { store = (use_totp_challenge env.fault id s.store).1 }))
          (use-Spent s.store ch m u e f))
        (after_use-Spends r code)

  missing-Only : {A : Type 0} (e : Error) → Only {A = A} (λ _. ⊥) (missing e)
  missing-Only no_rows = record { at = λ s. tt }
  missing-Only (failed why) = record { at = λ s. tt }

  missing-stops : {A : Type 0} (s : Service) (e : Error) (a : A) → (missing e s).0 ≢ got a
  missing-stops s no_rows a h = cc
  missing-stops s (failed why) a h = cc

  use-found :
      (s : Store) (ch : TotpChallenge)
      → (use_totp_challenge env.fault id s).0 ≡ ok ch
      → find? (is_challenge id) s.totp_challenges ≡ some ch
  unfolding use_totp_challenge attempt
  use-found s ch h = elim (Option-cases (env.fault s.statements)) [
    | inr (why, e) ↦ absurd (ground (arith, rw (e, statement) at h))
    | inl e ↦ elim (Option-cases (find? (is_challenge id) s.totp_challenges)) [
      | inl m ↦ absurd (ground (arith, rw (e, statement, m) at h))
      | inr (d, m) ↦ elim (Bool-cases d.used) [
        | inl u ↦ m ∙ ground (arith, rw (e, statement, m, u) at h)
        | inr u ↦ m ∙ ground (arith, rw (e, statement, m, u) at h)
      ]
    ]
  ]

  answer-stops :
      (r : Request) (code : Text) (s : Service)
      → Spent id s.store
      → NoTokens (answer_challenge env c r id code s).0
  unfolding answer_challenge
  answer-stops r code s spent =
      and_then-Grants (λ _. ⊥) (query (use_totp_challenge env.fault id) missing s)
        (after_use r code)
        ((query-Only (use_totp_challenge env.fault id) missing missing-Only).at s)
        λ ch got_ch.
          rw
            (find?-AllUsed id s.store.totp_challenges ch spent (
              use-found s.store ch (
                or_else-got (use_totp_challenge env.fault id s.store).0 missing
                  (record s { store = (use_totp_challenge env.fault id s.store).1 }) ch
                  (missing-stops _) got_ch)))
            tt

-- A fresh challenge is good for one answer: whatever the first code was, where the statements that
-- read it and mark it go through, a second answer to it gets no tokens.
pub answer_challenge-again :
    (env : Env) (c : Config) (r r' : Request) (id code code' : Text) (s : Service)
    (ch : TotpChallenge)
    → find? (is_challenge id) s.store.totp_challenges ≡ some ch
    → ch.used ≡ false
    → env.fault s.store.statements ≡ none
    → env.fault (s.store.statements + 1) ≡ none
    → NoTokens (answer_challenge env c r' id code' (answer_challenge env c r id code s).1).0
answer_challenge-again env c r r' id code code' s ch m u e f =
    answer-stops env c id r' code' (answer_challenge env c r id code s).1
      (answer-Spent env c id r code s ch m u e f)
