-- ===== src/Auth/Tokens.antt =====
-- `issueAccessToken` and `IssueRefreshToken` of cmd/mail-admin/app/auth/service.go.
pub mod Issued
use ucware_mail_server.Base.{ℕ, ◌+◌, ◌*◌}
use ucware_mail_server.Text.{Text}
use ucware_mail_server.RateLimit.{minute}
use ucware_mail_server.Store.Types.{AdminUser}
use ucware_mail_server.Store.Tokens.{insert_refresh_token}
use ucware_mail_server.Http.{Tokens, ◌>>=◌, ◌>>◌, pure}
use ucware_mail_server.Auth.State.{
  Config, Claims, Env, H, or_else, query, internal, generate_refresh_token,
}

abbrev pub day : ℕ
day = 1440 * minute

abbrev pub access_expiry : Config → ℕ → ℕ
access_expiry c now = now + c.jwt_expiry_minutes * minute

abbrev pub claims_for : Config → AdminUser → ℕ → Claims
claims_for c a now = record {
  role = a.role;
  issuer = c.jwt_issuer;
  subject = a.email;
  issued_at = now;
  expires_at = access_expiry c now;
}

abbrev pub tokens_for : Config → AdminUser → ℕ → Text → Text → Tokens
tokens_for c a now signed raw = record {
  access_token = signed;
  refresh_token = raw;
  expires_at = access_expiry c now;
  role = a.role;
  email = a.email;
}

module _ (env : Env) (c : Config) where
  unfoldable pub issue_access_token : AdminUser → ℕ → H Text
  issue_access_token a now = or_else (env.sign (claims_for c a now)) internal

  -- `IssueRefreshToken`, and the row of the token's hash.
  unfoldable pub issue_refresh_token : AdminUser → ℕ → H Text
  unfolding insert_refresh_token
  issue_refresh_token a now = do
    drawn ← generate_refresh_token env
    raw ← or_else drawn internal
    query
        (insert_refresh_token env.fault (env.sha256_hex raw) a.email
          (now + c.refresh_token_expiry_days * day))
        internal
    pure raw

  -- The tail of every successful login: an access token and a refresh token.
  unfoldable pub issue_tokens : AdminUser → ℕ → H Tokens
  unfolding issue_access_token issue_refresh_token
  issue_tokens a now = do
    signed ← issue_access_token a now
    raw ← issue_refresh_token a now
    pure (tokens_for c a now signed raw)
