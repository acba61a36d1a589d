-- ===== src/Store/Users.antt =====
-- Mail users and the audit log of cmd/mail-admin/app/internal/store/sqlite.go.
use ucware_mail_server.Base.{ℕ, Option, List, [], ◌∷◌, if◌then◌else◌, filter, take}
use ucware_mail_server.Text.{Text, codes, text_eq}
use ucware_mail_server.Text.Order.{text_lt, sort}
use ucware_mail_server.Sql.{failed, Exec, pure, raise, gets, modify, ◌>>=◌, ◌>>◌, delete_where}
use ucware_mail_server.Store.Types.{User, AuditLog, Store, statement}

-- `INSERT … ON CONFLICT(email) DO UPDATE`.
unfoldable pub put_user : User → List User → List User
put_user u [] = u ∷ []
put_user u (v ∷ vs) =
    if text_eq v.email u.email
    then record v { password_hash = u.password_hash } ∷ vs
    else v ∷ put_user u vs

abbrev pub users_by_email : Text → List User → List User
users_by_email email = filter (λ u. text_eq u.email email)

abbrev pub first_user : List User → Exec Store User
first_user [] = raise (failed (codes "user not found after upsert"))
first_user (u ∷ _) = pure u

module _ (fault : ℕ → Option Text) where
  unfoldable pub list_users_by_email : Text → Exec Store (List User)
  unfolding statement
  list_users_by_email email = do statement fault; gets (λ s. users_by_email email s.users)

  unfoldable pub upsert_user : ℕ → Text → Text → Exec Store User
  unfolding statement put_user list_users_by_email
  upsert_user now email password_hash = do
    statement fault
    modify (λ s. record s {
      users =
          put_user (record { email = email; password_hash = password_hash; created_at = now })
            s.users;
    })
    users ← list_users_by_email email
    first_user users

  unfoldable pub delete_user : Text → Exec Store (Unit {0})
  unfolding statement
  delete_user email = do
    statement fault
    modify (λ s. record s { users = delete_where (λ u. text_eq u.email email) s.users })

  unfoldable pub list_users : Exec Store (List User)
  unfolding statement sort text_lt
  list_users = do statement fault; gets (λ s. sort (λ u v. text_lt u.email v.email) s.users)

  unfoldable pub insert_audit_log : ℕ → AuditLog → Exec Store (Unit {0})
  unfolding statement
  insert_audit_log now row = do
    statement fault
    modify (λ s. record s { audit_logs = record row { created_at = now } ∷ s.audit_logs })

  unfoldable pub list_audit_logs : ℕ → Exec Store (List AuditLog)
  unfolding statement
  list_audit_logs limit = do statement fault; gets (λ s. take limit s.audit_logs)
