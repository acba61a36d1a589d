-- ===== src/Auth/Sessions.antt =====
-- `HandleRefreshToken` and `HandleLogout` of cmd/mail-admin/app/auth/service.go.
pub mod Revocation
use ucware_mail_server.Base.{ℕ, Bool, true, false, not, ◌||◌, Option, List, [], ltb, if◌then◌else◌}
use ucware_mail_server.Text.{Text, codes, text_eq, is_empty, trim_space}
use ucware_mail_server.Sql.{Error, no_rows, failed}
use ucware_mail_server.Store.Types.{AdminUser, RefreshToken}
use ucware_mail_server.Store.Admins.{get_admin_user_by_email}
use ucware_mail_server.Store.Tokens.{get_refresh_token, revoke_refresh_token}
use ucware_mail_server.Http.{Request, ◌>>=◌, ◌>>◌, pure, send, http_error, login, result}
use ucware_mail_server.Auth.State.{
  Config, Env, Service, H, query, internal, require, or_bad_json, now, write_audit,
}
use ucware_mail_server.Auth.Tokens.{access_expiry, issue_access_token}

-- The body of both requests is its field `refreshToken`.
abbrev method_not_allowed : H (Unit {0})
method_not_allowed = http_error 405 (codes "method not allowed")

abbrev pub unauthorized : {A : Type 0} → H A
unauthorized = http_error 401 (codes "unauthorized")

-- `sql.ErrNoRows` answers 401, another error 500.
abbrev pub missing : {A : Type 0} → Error → H A
missing no_rows = unauthorized
missing (failed why) = internal (failed why)

module _ (env : Env) (c : Config) where
  -- The answer for a live token: an access token, and no new refresh token.
  renewed : Request → AdminUser → ℕ → H (Unit {0})
  unfolding issue_access_token
  renewed r a t = do
    signed ← issue_access_token env c a t
    write_audit env r (codes "refresh_token") a.email a.email (codes "ok") (codes "token refreshed")
    send 200 (
        login (record {
          access_token = signed;
          refresh_token = [];
          expires_at = access_expiry c t;
          role = a.role;
          email = a.email;
        }))

  -- From the hash of the token on.
  unfoldable pub refresh : Request → Text → H (Unit {0})
  unfolding get_refresh_token get_admin_user_by_email renewed
  refresh r token_hash = do
    rt ← query (get_refresh_token env.fault token_hash) missing
    t ← now env
    require (not (rt.revoked || ltb rt.expires_at t)) unauthorized
    a ← query (get_admin_user_by_email env.fault rt.admin_email) missing
    t ← now env
    renewed r a t

  unfoldable pub handle_refresh_token : Request → Option Text → H (Unit {0})
  unfolding refresh
  handle_refresh_token r body = do
    require (text_eq r.method (codes "POST")) method_not_allowed
    token ← or_bad_json body
    require (not (is_empty (trim_space token))) (http_error 400 (codes "refreshToken is required"))
    refresh r (env.sha256_hex (trim_space token))

  unfoldable pub handle_logout : Request → Option Text → H (Unit {0})
  unfolding revoke_refresh_token
  handle_logout r body = do
    require (text_eq r.method (codes "POST")) method_not_allowed
    token ← or_bad_json body
    let absent = is_empty (trim_space token)
    let revoke = query (revoke_refresh_token env.fault (env.sha256_hex (trim_space token))) internal
    if absent then pure tt else revoke
    send 200 (result (codes "logged out"))
