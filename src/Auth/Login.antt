-- ===== src/Auth/Login.antt =====
-- `HandleLogin` of cmd/mail-admin/app/auth/service.go.
pub mod Granting
use ucware_mail_server.Base.{
  ℕ, ◌+◌, ◌*◌, Bool, true, false, not, Option, none, some, List, [], ◌∷◌, if◌then◌else◌,
}
use ucware_mail_server.Text.{Text, codes, text_eq, to_lower, trim_space}
use ucware_mail_server.Sql.{Error, no_rows, failed}
use ucware_mail_server.RateLimit.{allow, minute}
use ucware_mail_server.Store.Types.{AdminUser}
use ucware_mail_server.Store.Admins.{get_admin_user_by_email}
use ucware_mail_server.Store.Tokens.{insert_totp_challenge}
use ucware_mail_server.Http.{
  Request, Response, Handler, got, ◌>>=◌, ◌>>◌, pure, modify, send, http_error, login,
  totp_required,
}
use ucware_mail_server.Http.ClientIp.{request_client_ip}
use ucware_mail_server.Auth.State.{
  Config, Env, Service, H, or_else, query, internal, require, or_bad_json, now,
  generate_refresh_token, write_audit, refuse,
}
use ucware_mail_server.Auth.Lockout.{is_login_locked, register_login_failure, clear_login_failures}
use ucware_mail_server.Auth.Tokens.{issue_tokens}

pub record LoginRequest : Type 0 where
  pub email : Text
  pub password : Text

abbrev act : Text
act = codes "login"

module _ (env : Env) (c : Config) where
  client_allowed : Request → ℕ → H Bool
  unfolding request_client_ip allow
  client_allowed r t s =
      let ip = request_client_ip env.split_host r.forwarded_for r.real_ip r.remote_addr in
      let next = allow s.login_limiter ip t in (got next.1, record s { login_limiter = next.0 })

  unlocked : Text → ℕ → H Bool
  unfolding is_login_locked
  unlocked email t s = let next = is_login_locked env email t s in (got (not next.1), next.0)

  -- The row of the email; an unknown one counts as a failed login.
  find_admin : Request → Text → ℕ → Error → H AdminUser
  unfolding register_login_failure
  find_admin r email t no_rows = do
    modify (register_login_failure env c email t)
    refuse env r 401 (codes "unauthorized") act [] email (codes "unknown account")
  find_admin r email t (failed why) = internal (failed why)

  wrong_password : Request → Text → ℕ → H (Unit {0})
  unfolding register_login_failure
  wrong_password r email t = do
    modify (register_login_failure env c email t)
    refuse env r 401 (codes "unauthorized") act email email (codes "wrong password")

  -- With TOTP the answer is a challenge, and no token.
  ask_totp : Request → Text → AdminUser → H (Unit {0})
  unfolding insert_totp_challenge
  ask_totp r email a = do
    drawn ← generate_refresh_token env
    id ← or_else drawn internal
    t ← now env
    query (insert_totp_challenge env.fault id a.email (t + c.totp_challenge_expiry_mins * minute))
        internal
    write_audit env r act email email (codes "totp_required") (codes "awaiting TOTP")
    send 200 (totp_required id)

  grant : Request → Text → AdminUser → ℕ → H (Unit {0})
  unfolding issue_tokens
  grant r email a t = do
    tokens ← issue_tokens env c a t
    write_audit env r act email email (codes "ok") (codes "login success")
    send 200 (login tokens)

  -- After the password: the second factor, or the tokens.
  unfoldable pub accepted : Request → Text → AdminUser → ℕ → H (Unit {0})
  unfolding clear_login_failures ask_totp grant
  accepted r email a t = do
    modify (clear_login_failures email)
    if a.totp_enabled then ask_totp r email a else grant r email a t

  -- From the check of the lock on, with the email in lower case and trimmed.
  unfoldable pub check_login : Request → Text → Text → ℕ → H (Unit {0})
  unfolding unlocked find_admin wrong_password accepted get_admin_user_by_email
  check_login r email password t = do
    free ← unlocked email t
    require free (
        refuse env r 423 (codes "account temporarily locked") act email email
          (codes "account locked"))
    a ← query (get_admin_user_by_email env.fault email) (find_admin r email t)
    require (env.bcrypt_ok a.password_hash password) (wrong_password r email t)
    accepted r email a t

  unfoldable pub handle_login : Request → Option LoginRequest → H (Unit {0})
  unfolding client_allowed check_login
  handle_login r body = do
    require (text_eq r.method (codes "POST")) (http_error 405 (codes "method not allowed"))
    t ← now env
    allowed ← client_allowed r t
    require allowed (refuse env r 429 (codes "too many requests") act [] [] (codes "rate limited"))
    req ← or_bad_json body
    check_login r (to_lower (trim_space req.email)) req.password t
