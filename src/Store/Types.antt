-- ===== src/Store/Types.antt =====
-- The rows and tables of cmd/mail-admin/app/internal/store/sqlite.go, and one statement.
use ucware_mail_server.Base.{ℕ, ◌+◌, Bool, Option, none, some, List}
use ucware_mail_server.Text.{Text}
use ucware_mail_server.Sql.{no_rows, failed, ok, err, Exec, raise, pure}

pub record User : Type 0 where
  pub email : Text
  pub password_hash : Text
  pub created_at : ℕ

pub record AdminUser : Type 0 where
  pub email : Text
  pub password_hash : Text
  pub role : Text
  pub totp_secret : Text
  pub totp_enabled : Bool
  pub oauth2_provider : Text
  pub oauth2_sub : Text
  pub created_at : ℕ

pub record TotpChallenge : Type 0 where
  pub id : Text
  pub admin_email : Text
  pub expires_at : ℕ
  pub used : Bool

pub record Oauth2State : Type 0 where
  pub state : Text
  pub provider : Text
  pub expires_at : ℕ

pub record AuditLog : Type 0 where
  pub action : Text
  pub actor : Text
  pub email : Text
  pub status : Text
  pub message : Text
  pub remote_ip : Text
  pub user_agent : Text
  pub created_at : ℕ

pub record RefreshToken : Type 0 where
  pub token_hash : Text
  pub admin_email : Text
  pub expires_at : ℕ
  pub revoked : Bool

-- The audit log has its newest row first: `id` counts up.
pub record Store : Type 0 where
  pub users : List User
  pub admin_users : List AdminUser
  pub audit_logs : List AuditLog
  pub refresh_tokens : List RefreshToken
  pub totp_challenges : List TotpChallenge
  pub oauth2_states : List Oauth2State
  pub statements : ℕ

unfoldable pub statement : (ℕ → Option Text) → Exec Store (Unit {0})
statement fault s = elim (fault s.statements) [
  | none ↦ (ok tt, record s { statements = s.statements + 1 })
  | some why ↦ (err (failed why), record s { statements = s.statements + 1 })
]

-- `row.Scan` of at most one row.
abbrev pub or_no_rows : {A : Type 0} → Option A → Exec Store A
or_no_rows none = raise no_rows
or_no_rows (some a) = pure a
