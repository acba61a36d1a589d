-- ===== src/Auth/Admins/Created.antt =====
-- What a request to create an administrator does to the accounts.
use ucware_mail_server.Base.{ℕ, ◌≤◌, ◌≡◌, ◌≢◌, ◌⊎◌, some, List, find?, length}
use ucware_mail_server.Text.{Text, to_lower, trim_space}
use ucware_mail_server.Sql.{ok}
use ucware_mail_server.Store.Types.{AdminUser}
use ucware_mail_server.Store.Admins.{is_admin, put_admin, new_admin}
use ucware_mail_server.Security.Roles.{OneOf, roles_known}
use ucware_mail_server.Http.{Response}
use ucware_mail_server.Http.Ends.{Ends}
use ucware_mail_server.Auth.State.{Env, Service}
use ucware_mail_server.Auth.Admins.{CreateAdminRequest}
use ucware_mail_server.Auth.Bootstrap.Account.{Account}

abbrev pub email_of : CreateAdminRequest → Text
email_of req = to_lower (trim_space req.email)

abbrev pub role_of : CreateAdminRequest → Text
role_of req = to_lower (trim_space req.role)

abbrev put : ℕ → Text → Text → Text → List AdminUser → List AdminUser
put now email hash role =
    put_admin (new_admin now email hash role) (λ b. record b { password_hash = hash; role = role })

module _ (env : Env) where
  -- The request may make an account: its email, without the space around it and in lower case, is
  -- one that the parser reads as itself but for case, its role is one of the three, and its password
  -- has at least 10 bytes. The account then has the role and the hash of the password, and those of
  -- other emails are as they were.
  pub record Made (req : CreateAdminRequest) (before after : List AdminUser) : Type 0 where
    pub address : Text
    pub parsed : env.parse_address (email_of req) ≡ some address
    pub same : to_lower address ≡ email_of req
    pub role : OneOf (role_of req) roles_known
    pub long : 10 ≤ length req.password
    pub hash : Text
    pub hashed : env.bcrypt_hash req.password ≡ ok hash
    pub account : Account (email_of req) hash (role_of req) after
    pub others :
        (other : Text)
        → email_of req ≢ other
        → find? (is_admin other) after ≡ find? (is_admin other) before

  -- A refusal, with the accounts as they were, or an account and the answer 201, or 500 where the
  -- database has failed after the writing.
  abbrev pub Answer : CreateAdminRequest → Service → Response → Service → Type 0
  Answer req s resp t =
      ((400 ≤ resp.status) × (t.store.admin_users ≡ s.store.admin_users))
      ⊎ (Made req s.store.admin_users t.store.admin_users
          × ((resp.status ≡ 201) ⊎ (resp.status ≡ 500)))
