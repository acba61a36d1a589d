-- ===== src/Store/Admins.antt =====
-- Administrators of cmd/mail-admin/app/internal/store/sqlite.go, with their TOTP settings.
use ucware_mail_server.Base.{ℕ, Bool, true, false, Option, List, [], ◌∷◌, if◌then◌else◌, find?}
use ucware_mail_server.Text.{Text, text_eq}
use ucware_mail_server.Text.Order.{text_lt, sort}
use ucware_mail_server.Sql.{Exec, gets, modify, ◌>>=◌, ◌>>◌, delete_where, update_where}
use ucware_mail_server.Store.Types.{AdminUser, Store, statement, or_no_rows}

abbrev pub is_admin : Text → AdminUser → Bool
is_admin email a = text_eq a.email email

-- `INSERT … ON CONFLICT(email) DO UPDATE`: a new row, or a change of the one with its email.
unfoldable pub put_admin : AdminUser → (AdminUser → AdminUser) → List AdminUser → List AdminUser
put_admin a f [] = a ∷ []
put_admin a f (b ∷ bs) = if is_admin a.email b then f b ∷ bs else b ∷ put_admin a f bs

abbrev pub new_admin : ℕ → Text → Text → Text → AdminUser
new_admin now email password_hash role = record {
  email = email;
  password_hash = password_hash;
  role = role;
  totp_secret = [];
  totp_enabled = false;
  oauth2_provider = [];
  oauth2_sub = [];
  created_at = now;
}

-- `UPDATE admin_users SET … WHERE email = ?`.
abbrev pub update_admin : Text → (AdminUser → AdminUser) → Store → Store
update_admin email f s = record s { admin_users = update_where (is_admin email) f s.admin_users }

module _ (fault : ℕ → Option Text) where
  unfoldable pub get_admin_user_by_email : Text → Exec Store AdminUser
  unfolding statement
  get_admin_user_by_email email = do
    statement fault
    found ← gets (λ s. find? (is_admin email) s.admin_users)
    or_no_rows found

  unfoldable pub upsert_admin_user : ℕ → Text → Text → Text → Exec Store AdminUser
  unfolding statement put_admin get_admin_user_by_email
  upsert_admin_user now email password_hash role = do
    statement fault
    modify (λ s. record s {
      admin_users =
          put_admin (new_admin now email password_hash role)
            (λ b. record b { password_hash = password_hash; role = role }) s.admin_users;
    })
    get_admin_user_by_email email

  unfoldable pub upsert_admin_user_by_oauth2 : ℕ → Text → Text → Text → Text → Exec Store AdminUser
  unfolding statement put_admin get_admin_user_by_email
  upsert_admin_user_by_oauth2 now email provider sub role = do
    statement fault
    let row = new_admin now email [] role
    modify (λ s. record s {
      admin_users =
          put_admin (record row { oauth2_provider = provider; oauth2_sub = sub })
            (λ b. record b { oauth2_provider = provider; oauth2_sub = sub }) s.admin_users;
    })
    get_admin_user_by_email email

  unfoldable pub list_admin_users : Exec Store (List AdminUser)
  unfolding statement sort text_lt
  list_admin_users = do
    statement fault
    gets (λ s. sort (λ a b. text_lt a.email b.email) s.admin_users)

  unfoldable pub delete_admin_user : Text → Exec Store (Unit {0})
  unfolding statement
  delete_admin_user email = do
    statement fault
    modify (λ s. record s { admin_users = delete_where (is_admin email) s.admin_users })

  unfoldable pub update_admin_user_role : Text → Text → Exec Store (Unit {0})
  unfolding statement
  update_admin_user_role email role = do
    statement fault
    modify (update_admin email (λ a. record a { role = role }))

  unfoldable pub change_admin_password : Text → Text → Exec Store (Unit {0})
  unfolding statement
  change_admin_password email password_hash = do
    statement fault
    modify (update_admin email (λ a. record a { password_hash = password_hash }))

  unfoldable pub set_totp_secret : Text → Text → Exec Store (Unit {0})
  unfolding statement
  set_totp_secret email secret = do
    statement fault
    modify (update_admin email (λ a. record a { totp_secret = secret; totp_enabled = false }))

  unfoldable pub enable_totp : Text → Exec Store (Unit {0})
  unfolding statement
  enable_totp email = do
    statement fault
    modify (update_admin email (λ a. record a { totp_enabled = true }))

  unfoldable pub disable_totp : Text → Exec Store (Unit {0})
  unfolding statement
  disable_totp email = do
    statement fault
    modify (update_admin email (λ a. record a { totp_secret = []; totp_enabled = false }))
