-- ===== src/Auth/Login/Granting.antt =====
-- Which logins are answered with tokens.
use ucware_mail_server.Base.{
  ℕ, ◌+◌, ◌*◌, ◌<◌, ◌≡◌, ◌≢◌, sym, refl, ap, ◌∙◌, inl, inr, true, false, some, List, find?,
  if◌then◌else◌, arith, Bool-cases, Option-cases,
}
use ucware_mail_server.Text.{Text, codes, text_eq, to_lower, trim_space}
use ucware_mail_server.Http.ClientIp.{request_client_ip}
use ucware_mail_server.Sql.{Error, no_rows, failed, ok, Exec}
use ucware_mail_server.RateLimit.{minute, allow}
use ucware_mail_server.Store.Types.{AdminUser, Store, statement}
use ucware_mail_server.Store.Admins.{is_admin, get_admin_user_by_email}
use ucware_mail_server.Store.Frames.{insert_audit_log-admin_users}
use ucware_mail_server.Store.Tokens.{insert_totp_challenge}
use ucware_mail_server.Http.{Request, Tokens, got, sent, error, modify, totp_required, send, ◌>>◌}
use ucware_mail_server.Auth.State.{
  Config, Env, Service, H, query, or_else, internal, require, now, is_valid_email, write_audit,
  generate_refresh_token,
}
use ucware_mail_server.Auth.Lockout.{key_of, is_login_locked, clear_login_failures}
use ucware_mail_server.Auth.Lockout.Counting.{lock_of, is_login_locked-store, is_login_locked-ahead}
use ucware_mail_server.Auth.Tokens.{issue_tokens}
use ucware_mail_server.Auth.Granting.{
  Grants, Only, or_else-got, and_then-Grants, bind-Only, modify-Only, internal-Only, or_else-Only,
  query-Only,
}
use ucware_mail_server.Auth.Login.{
  unlocked, find_admin, wrong_password, ask_totp, grant, accepted, check_login, act, LoginRequest,
  client_allowed, handle_login,
}
use ucware_mail_server.Auth.Tokens.Issued.{For, issue_tokens-For, issue_tokens-Only}

-- Tokens that a login may answer with: for the row of the email, whose hash the password matches
-- and which has no second factor.
pub record OfLogin (env : Env) (c : Config) (rows : List AdminUser) (email password : Text) (t : ℕ)
    (tokens : Tokens) : Type 0 where
  pub row : AdminUser
  pub found : find? (is_admin email) rows ≡ some row
  pub matches : env.bcrypt_ok row.password_hash password ≡ true
  pub single : row.totp_enabled ≡ false
  pub tokens_for : For env c row t tokens

module _ (env : Env) (c : Config) where
  grant-Only :
      (P : Tokens → Type 0) (r : Request) (email : Text) (a : AdminUser) (t : ℕ)
      → ((tokens : Tokens) → For env c a t tokens → P tokens)
      → Only P (grant env c r email a t)
  unfolding grant
  grant-Only P r email a t h = record {
    at = λ s.
        and_then-Grants P (issue_tokens env c a t s) _ ((issue_tokens-Only env c P a t).at s)
          λ tokens e. h tokens (issue_tokens-For env c a t s tokens e);
  }

  abbrev challenged : Request → Text → Text → H (Unit {0})
  challenged r email id =
      write_audit env r act email email (codes "totp_required") (codes "awaiting TOTP")
      >> send 200 (totp_required id)

  abbrev store_challenge : Text → AdminUser → ℕ → Exec Store (Unit {0})
  store_challenge id a t =
      insert_totp_challenge env.fault id a.email (t + c.totp_challenge_expiry_mins * minute)

  ask_totp-Only :
      (P : Tokens → Type 0) (r : Request) (email : Text) (a : AdminUser)
      → Only P (ask_totp env c r email a)
  unfolding ask_totp
  ask_totp-Only P r email a =
      bind-Only (generate_refresh_token env) _ (record { at = λ s. tt {0} })
        λ drawn.
          bind-Only (or_else drawn internal) _ (or_else-Only drawn internal internal-Only) λ id.
            bind-Only (now env) _ (record { at = λ s. tt {0} })
              λ t.
                bind-Only (query (store_challenge id a t) internal) (λ _. challenged r email id)
                  (query-Only (store_challenge id a t) internal internal-Only)
                  λ _. record { at = λ s. tt {0} }

  abbrev second_step : Request → Text → AdminUser → ℕ → H (Unit {0})
  second_step r email a t =
      if a.totp_enabled then ask_totp env c r email a else grant env c r email a t

  second_step-Only :
      (P : Tokens → Type 0) (r : Request) (email : Text) (a : AdminUser) (t : ℕ)
      → ((tokens : Tokens) → a.totp_enabled ≡ false → For env c a t tokens → P tokens)
      → Only P (second_step r email a t)
  unfolding ask_totp grant
  second_step-Only P r email a t h = elim (Bool-cases a.totp_enabled) [
    | inl e ↦ rw e (ask_totp-Only P r email a)
    | inr e ↦ rw e (grant-Only P r email a t (λ tokens f. h tokens e f))
  ]

  accepted-Only :
      (P : Tokens → Type 0) (r : Request) (email : Text) (a : AdminUser) (t : ℕ)
      → ((tokens : Tokens) → a.totp_enabled ≡ false → For env c a t tokens → P tokens)
      → Only P (accepted env c r email a t)
  unfolding accepted
  accepted-Only P r email a t h =
      bind-Only (modify (clear_login_failures email)) (λ _. second_step r email a t)
        (modify-Only (clear_login_failures email)) λ _. second_step-Only P r email a t h

  find_admin-Only :
      (P : Tokens → Type 0) (r : Request) (email : Text) (t : ℕ) (e : Error)
      → Only P (find_admin env c r email t e)
  unfolding find_admin
  find_admin-Only P r email t no_rows = record { at = λ s. tt {0} }
  find_admin-Only P r email t (failed why) = internal-Only (failed why)

  find_admin-stops :
      (r : Request) (email : Text) (t : ℕ) (s : Service) (e : Error) (a : AdminUser)
      → (find_admin env c r email t e s).0 ≢ got a
  unfolding find_admin
  find_admin-stops r email t s no_rows a h = cc
  find_admin-stops r email t s (failed why) a h = cc

  wrong_password-Only :
      (P : Tokens → Type 0) (r : Request) (email : Text) (t : ℕ)
      → Only P (wrong_password env c r email t)
  unfolding wrong_password
  wrong_password-Only P r email t = record { at = λ s. tt {0} }

  -- What follows the search for the row.
  abbrev with_admin : Request → Text → Text → ℕ → AdminUser → H (Unit {0})
  with_admin r email password t a =
      require (env.bcrypt_ok a.password_hash password) (wrong_password env c r email t)
      >> accepted env c r email a t

  with_admin-Grants :
      (P : Tokens → Type 0) (r : Request) (email password : Text) (t : ℕ) (a : AdminUser)
      → ((tokens : Tokens)
          → env.bcrypt_ok a.password_hash password ≡ true
          → a.totp_enabled ≡ false
          → For env c a t tokens
          → P tokens)
      → Only P (with_admin r email password t a)
  unfolding wrong_password
  with_admin-Grants P r email password t a h =
      elim (Bool-cases (env.bcrypt_ok a.password_hash password)) [
        | inl e ↦ record {
          at = λ s. rw e ((accepted-Only P r email a t (λ tokens. h tokens e)).at s);
        }
        | inr e ↦ record { at = λ s. rw e ((wrong_password-Only P r email t).at s) }
      ]

  -- The row that the store answers with is the first one of the email.
  get_admin-found :
      (email : Text) (s : Store) (a : AdminUser)
      → (get_admin_user_by_email env.fault email s).0 ≡ ok a
      → find? (is_admin email) s.admin_users ≡ some a
  unfolding get_admin_user_by_email statement
  get_admin-found email s a h = elim (Option-cases (env.fault s.statements)) [
    | inr (why, e) ↦ absurd (ground (arith, rw (e, statement) at h))
    | inl e ↦ elim (Option-cases (find? (is_admin email) s.admin_users)) [
      | inl n ↦ absurd (ground (arith, rw (e, statement, n) at h))
      | inr (b, m) ↦ m ∙ ground (arith, rw (e, statement, m) at h)
    ]
  ]

  -- From the check of the lock on.
  check_login-OfLogin :
      (r : Request) (email password : Text) (t : ℕ) (s : Service)
      → Grants
          (OfLogin env c s.store.admin_users email password t)
          (check_login env c r email password t s).0
  unfolding check_login unlocked
  check_login-OfLogin r email password t s = elim (Bool-cases (is_login_locked env email t s).1) [
    | inl e ↦ rw e tt
    | inr e ↦
        let s1 = (is_login_locked env email t s).0 in
        let P = OfLogin env c s.store.admin_users email password t in
        rw e (
          and_then-Grants P
            (query (get_admin_user_by_email env.fault email) (find_admin env c r email t) s1)
            (with_admin r email password t)
            ((query-Only (get_admin_user_by_email env.fault email) (find_admin env c r email t)
                (find_admin-Only P r email t)).at
              s1)
            λ a got_a.
              let is_found =
                or_else-got (get_admin_user_by_email env.fault email s1.store).0
                  (find_admin env c r email t)
                  (record s1 { store = (get_admin_user_by_email env.fault email s1.store).1 }) a
                  (find_admin-stops r email t _) got_a in
              (with_admin-Grants P r email password t a λ tokens m n f. record {
                row = a;
                found =
                    ap (λ (u : Store). find? (is_admin email) u.admin_users)
                      (sym (is_login_locked-store env c email t s))
                    ∙ get_admin-found email s1.store a is_found;
                matches = m;
                single = n;
                tokens_for = f;
              }).at
                _)
  ]

  -- Whatever the database, the clock and the service's counters, a login is answered with tokens
  -- only where the row in `admin_users` of the email, trimmed and in lower case, has a hash that the
  -- password matches and no TOTP, and the tokens carry that row's role and email in claims signed
  -- for it.
  pub handle_login-OfLogin :
      (r : Request) (req : LoginRequest) (s : Service)
      → Grants
          (OfLogin env c s.store.admin_users
            (to_lower (trim_space req.email))
            req.password
            (env.clock s.reads))
          (handle_login env c r (some req) s).0
  unfolding handle_login client_allowed
  handle_login-OfLogin r req s =
      let ip = request_client_ip env.split_host r.forwarded_for r.real_ip r.remote_addr in
      elim (Bool-cases (text_eq r.method (codes "POST"))) [
        | inr e ↦ rw e tt
        | inl e ↦ elim (Bool-cases (allow s.login_limiter ip (env.clock s.reads)).1) [
          | inr a ↦ rw (e, a) tt
          | inl a ↦
              rw (e, a)
                (check_login-OfLogin r (to_lower (trim_space req.email)) req.password
                  (env.clock s.reads) _)
        ]
      ]

  -- While the lock of a well-formed email lies ahead, its login is answered with 423 whatever the
  -- password, and the administrators and the counters stay as they are.
  pub check_login-locked :
      (r : Request) (email password : Text) (t until : ℕ) (s : Service)
      → is_valid_email env (key_of email) ≡ true
      → lock_of env c email s ≡ some until
      → t < until
      → (check_login env c r email password t s).0
          ≡ sent (record { status = 423; body = error (codes "account temporarily locked") })
        × ((check_login env c r email password t s).1.store.admin_users ≡ s.store.admin_users)
        × ((check_login env c r email password t s).1.login_failures ≡ s.login_failures)
        × ((check_login env c r email password t s).1.login_locked_until ≡ s.login_locked_until)
  unfolding check_login unlocked
  check_login-locked r email password t until s valid locked ahead =
      rw (is_login_locked-ahead env c email t until s valid locked ahead)
        (refl, insert_audit_log-admin_users env.fault (env.clock s.reads) _ s.store, refl, refl)
