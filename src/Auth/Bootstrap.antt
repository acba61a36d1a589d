-- ===== src/Auth/Bootstrap.antt =====
-- `EnsureBootstrapAdmin` of cmd/mail-admin/app/auth/service.go.
pub mod Account
use ucware_mail_server.Base.{ℕ, ◌+◌, Bool, not, List, ltb, length, if◌then◌else◌}
use ucware_mail_server.Text.{Text, codes, to_lower, trim_space}
use ucware_mail_server.Sql.{failed, Result, ok, err}
use ucware_mail_server.Store.Types.{AdminUser}
use ucware_mail_server.Store.Admins.{upsert_admin_user}
use ucware_mail_server.Auth.State.{Config, Env, Service, is_valid_email}

-- `_, err = …`.
abbrev pub only_error : Result AdminUser → Result (Unit {0})
only_error (ok a) = ok tt
only_error (err e) = err e

abbrev pub bootstrap_email : Config → Text
bootstrap_email c = trim_space (to_lower c.bootstrap_admin_email)

module _ (env : Env) (c : Config) where
  store_account : Result Text → Service → Result (Unit {0}) × Service
  unfolding upsert_admin_user
  store_account (err e) s = (err e, s)
  store_account (ok hash) s =
      let done =
        upsert_admin_user env.fault (env.clock s.reads) (bootstrap_email c) hash
          c.bootstrap_admin_role s.store in
      (only_error done.0, record s { store = done.1; reads = s.reads + 1 })

  unfoldable pub ensure_bootstrap_admin : Service → Result (Unit {0}) × Service
  unfolding store_account is_valid_email
  ensure_bootstrap_admin s =
      if not (is_valid_email env (bootstrap_email c))
      then (err (failed (codes "invalid BOOTSTRAP_ADMIN_EMAIL")), s)
      else if ltb (length c.bootstrap_admin_password) 10
      then (err (failed (codes "BOOTSTRAP_ADMIN_PASSWORD must be at least 10 chars")), s)
      else store_account (env.bcrypt_hash c.bootstrap_admin_password) s
