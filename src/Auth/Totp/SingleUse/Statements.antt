-- ===== src/Auth/Totp/SingleUse/Statements.antt =====
-- The steps of `HandleTOTPChallenge` after the challenge keep its id used up.
use ucware_mail_server.Base.{
  ℕ, ◌+◌, ◌*◌, ◌≡◌, refl, inl, inr, not, Option, find?, arith, Option-cases,
}
use ucware_mail_server.Text.{Text, codes}
use ucware_mail_server.Sql.{Exec}
use ucware_mail_server.Sql.Keeps.{Keeps}
use ucware_mail_server.Text.Stamp.{stamp_lt}
use ucware_mail_server.Store.Types.{AdminUser, RefreshToken, Store, statement}
use ucware_mail_server.Store.Frames.{insert_audit_log-totp_challenges}
use ucware_mail_server.Store.Admins.{get_admin_user_by_email, is_admin}
use ucware_mail_server.Store.Tokens.{
  add_token, purge_expired_totp_challenges, insert_refresh_token, attempt,
}
use ucware_mail_server.Http.{Request, Tokens, ◌>>◌, pure, send, login}
use ucware_mail_server.Auth.State.{
  Config, Env, H, query, or_else, internal, now, generate_refresh_token, write_audit, refuse,
}
use ucware_mail_server.Auth.Tokens.{
  claims_for, issue_tokens, issue_access_token, issue_refresh_token, tokens_for, day,
}
use ucware_mail_server.Auth.Totp.{granted, purge_challenges}
use ucware_mail_server.Auth.Totp.SingleUse.{
  Spent, Spends, bind-Spends, or_else-Spends, query-Spends, filter-AllUsed,
}

module _ (fault : ℕ → Option Text) where
  pub get_admin-challenges :
      (email : Text) (s : Store)
      → (get_admin_user_by_email fault email s).1.totp_challenges ≡ s.totp_challenges
  unfolding get_admin_user_by_email
  get_admin-challenges email s = elim (Option-cases (fault s.statements)) [
    | inr (why, e) ↦ rw (e, statement) refl
    | inl e ↦ elim (Option-cases (find? (is_admin email) s.admin_users)) [
      | inl m ↦ rw (e, statement, m) refl
      | inr (a, m) ↦ rw (e, statement, m) refl
    ]
  ]

  add_token-challenges :
      (t : RefreshToken) (s : Store) → (add_token t s).1.totp_challenges ≡ s.totp_challenges
  unfolding add_token
  add_token-challenges t s = ground arith

  insert_refresh_token-challenges :
      (h email : Text) (t : ℕ) (s : Store)
      → (insert_refresh_token fault h email t s).1.totp_challenges ≡ s.totp_challenges
  unfolding insert_refresh_token
  insert_refresh_token-challenges h email t s = elim (Option-cases (fault s.statements)) [
    | inr (why, e) ↦ rw (e, statement) refl
    | inl e ↦
        rw (e, statement) (add_token-challenges _ (record s { statements = s.statements + 1 }))
  ]

  purge-Spent :
      (id : Text) (t : ℕ) (s : Store)
      → Spent id s
      → Spent id (purge_expired_totp_challenges fault t s).1
  unfolding purge_expired_totp_challenges
  purge-Spent id t s u = elim (Option-cases (fault s.statements)) [
    | inr (why, e) ↦ rw (e, statement) u
    | inl e ↦
        rw (e, statement)
          (filter-AllUsed id (λ ch. not (stamp_lt ch.expires_at t)) s.totp_challenges u)
  ]

-- A statement that leaves the challenges as they are.
pub same-Keeps :
    {A : Type 0} (id : Text) (m : Exec Store A)
    → ((s : Store) → (m s).1.totp_challenges ≡ s.totp_challenges)
    → Keeps (Spent id) m
same-Keeps id m h = record { at = λ s u. rw (h s) u }

module _ (env : Env) (c : Config) (id : Text) where
  write_audit-Spends :
      (r : Request) (action actor email status message : Text)
      → Spends id (write_audit env r action actor email status message)
  write_audit-Spends r action actor email status message = record {
    at = λ s u. rw (insert_audit_log-totp_challenges env.fault (env.clock s.reads) _ s.store) u;
  }

  pub refuse-Spends :
      {A : Type 0} (r : Request) (n : ℕ) (why action actor email message : Text)
      → Spends id (refuse env {A = A} r n why action actor email message)
  refuse-Spends r n why action actor email message = record {
    at = (write_audit-Spends r action actor email (codes "failed") message).at;
  }

  issue_refresh_token-Spends : (a : AdminUser) (t : ℕ) → Spends id (issue_refresh_token env c a t)
  unfolding issue_refresh_token
  issue_refresh_token-Spends a t =
      let store_hash = λ (raw : Text).
        insert_refresh_token env.fault (env.sha256_hex raw) a.email
          (t + c.refresh_token_expiry_days * day) in
      bind-Spends id (generate_refresh_token env) _ (record { at = λ s u. u })
        λ drawn. bind-Spends id (or_else drawn internal) _ (or_else-Spends id drawn) λ raw.
          bind-Spends id (query (store_hash raw) internal) (λ _. pure raw)
            (query-Spends id (store_hash raw) (
              same-Keeps id (store_hash raw)
                (insert_refresh_token-challenges env.fault (env.sha256_hex raw) a.email _)))
            λ _. record { at = λ s u. u }

  issue_tokens-Spends : (a : AdminUser) (t : ℕ) → Spends id (issue_tokens env c a t)
  unfolding issue_tokens issue_access_token
  issue_tokens-Spends a t =
      bind-Spends id (issue_access_token env c a t) _
        (or_else-Spends id (env.sign (claims_for c a t)))
        λ signed.
          bind-Spends id (issue_refresh_token env c a t) (λ raw. pure (tokens_for c a t signed raw))
            (issue_refresh_token-Spends a t) λ raw. record { at = λ s u. u }

  purge_challenges-Spends : Spends id (purge_challenges env c)
  unfolding purge_challenges attempt
  purge_challenges-Spends = record {
    at = λ s u. purge-Spent env.fault id (env.clock s.reads) s.store u;
  }

  abbrev announce : Request → AdminUser → Tokens → H (Unit {0})
  announce r a tokens =
      write_audit env r (codes "totp_challenge") a.email a.email (codes "ok")
        (codes "login success")
      >> send 200 (login tokens)

  announce-Spends :
      (r : Request) (a : AdminUser) (tokens : Tokens) → Spends id (announce r a tokens)
  announce-Spends r a tokens = record {
    at =
        (write_audit-Spends r (codes "totp_challenge") a.email a.email (codes "ok")
          (codes "login success")).at;
  }

  pub granted-Spends : (r : Request) (a : AdminUser) → Spends id (granted env c r a)
  unfolding granted
  granted-Spends r a =
      bind-Spends id (now env) _ (record { at = λ s u. u })
        λ t. bind-Spends id (issue_tokens env c a t) _ (issue_tokens-Spends a t) λ tokens.
          bind-Spends id (purge_challenges env c) (λ _. announce r a tokens) purge_challenges-Spends
            λ _. announce-Spends r a tokens
