-- ===== src/Auth/Admins.antt =====
-- The handlers of administrators in cmd/mail-admin/app/auth/service.go, and the bootstrap account.
pub mod Guards
pub mod Created
use ucware_mail_server.Base.{not, ◌&&◌, Option, ◌++◌, map, ltb, length, if◌then◌else◌}
use ucware_mail_server.Text.{Text, codes, text_eq, is_empty, to_lower, trim_space, trim_prefix, cut}
use ucware_mail_server.Sql.{Error}
use ucware_mail_server.Store.Types.{AdminUser}
use ucware_mail_server.Store.Admins.{
  upsert_admin_user, list_admin_users, delete_admin_user, update_admin_user_role,
  change_admin_password,
}
use ucware_mail_server.Store.Tokens.{purge_expired_refresh_tokens, attempt}
use ucware_mail_server.Security.{is_valid_role}
use ucware_mail_server.Http.{
  Request, AdminUserResponse, ◌>>=◌, ◌>>◌, send, http_error, admin, admins, result, role_updated,
}
use ucware_mail_server.Auth.State.{
  Env, H, or_else, query, internal, error_text, require, or_bad_json, now, write_audit, refuse,
  is_valid_email, actor_of,
}

pub record CreateAdminRequest : Type 0 where
  pub email : Text
  pub password : Text
  pub role : Text

abbrev response_of : AdminUser → AdminUserResponse
response_of a = record { email = a.email; role = a.role; created_at = a.created_at }

-- Which handler the method and the rest of the path choose, with the email.
pub data Route : Type 0 where
  delete_route : Text → Route
  role_route : Text → Route
  password_route : Text → Route
  no_email : Route
  not_found : Route

choose : Text → Text → Text → Route
unfolding text_eq
choose method email action =
    if is_empty email
    then no_email
    else if text_eq method (codes "DELETE") && is_empty action
    then delete_route email
    else if text_eq method (codes "PATCH") && text_eq action (codes "role")
    then role_route email
    else if text_eq method (codes "POST") && text_eq action (codes "password")
    then password_route email
    else not_found

-- A path without a second `/` has the empty action.
unfoldable pub route_of : Request → Route
unfolding choose cut trim_prefix to_lower trim_space
route_of r =
    let parts = cut b'/' (trim_prefix r.path (codes "/v1/auth/admins/")) in
    choose r.method (to_lower (trim_space parts.0)) (to_lower (trim_space parts.1))

module _ (env : Env) where
  unfoldable pub list_admins : H (Unit {0})
  unfolding list_admin_users
  list_admins = do
    rows ← query (list_admin_users env.fault) internal
    send 200 (admins (map response_of rows))

  -- An error that is also written to the audit log.
  abbrev audited : {A : Type 0} → Request → Text → Text → Text → Error → H A
  audited r action actor email e = refuse env r 500 (error_text e) action actor email (error_text e)

  check_new_admin : Request → Text → Text → Text → H (Unit {0})
  unfolding is_valid_email is_valid_role
  check_new_admin r email role password = do
    require (is_valid_email env email) (
        refuse env r 400 (codes "invalid email") (codes "create_admin") (actor_of r) email
          (codes "invalid email"))
    require (is_valid_role role) (
        refuse env r 400 (codes "invalid role") (codes "create_admin") (actor_of r) email
          (codes "invalid role"))
    require (not (ltb (length password) 10)) (
        refuse env r 400 (codes "password must be at least 10 characters") (codes "create_admin")
          (actor_of r) email (codes "password too short"))

  unfoldable pub create_admin : Request → Option CreateAdminRequest → H (Unit {0})
  unfolding check_new_admin upsert_admin_user to_lower trim_space
  create_admin r body = do
    req ← or_bad_json body
    let email = to_lower (trim_space req.email)
    let role = to_lower (trim_space req.role)
    check_new_admin r email role req.password
    hash ← or_else (env.bcrypt_hash req.password) internal
    t ← now env
    a ←
        query (upsert_admin_user env.fault t email hash role)
          (audited r (codes "create_admin") (actor_of r) email)
    write_audit env r (codes "create_admin") (actor_of r) email (codes "ok") (codes "created")
    send 201 (admin (response_of a))

  unfoldable pub delete_admin : Request → Text → H (Unit {0})
  unfolding is_valid_email delete_admin_user text_eq
  delete_admin r email = do
    require (not (text_eq email (actor_of r))) (
        refuse env r 400 (codes "cannot delete your own account") (codes "delete_admin")
          (actor_of r) email (codes "self-delete blocked"))
    require (is_valid_email env email) (http_error 400 (codes "invalid email"))
    query (delete_admin_user env.fault email) (audited r (codes "delete_admin") (actor_of r) email)
    write_audit env r (codes "delete_admin") (actor_of r) email (codes "ok") (codes "deleted")
    send 200 (result (codes "deleted"))

  -- The body is its field `role`.
  unfoldable pub change_admin_role : Request → Text → Option Text → H (Unit {0})
  unfolding is_valid_email is_valid_role update_admin_user_role to_lower trim_space
  change_admin_role r email body = do
    require (is_valid_email env email) (http_error 400 (codes "invalid email"))
    given ← or_bad_json body
    let role = to_lower (trim_space given)
    require (is_valid_role role) (
        refuse env r 400 (codes "invalid role") (codes "change_admin_role") (actor_of r) email
          (codes "invalid role"))
    query (update_admin_user_role env.fault email role)
        (audited r (codes "change_admin_role") (actor_of r) email)
    write_audit env r (codes "change_admin_role") (actor_of r) email (codes "ok")
        (codes "role=" ++ role)
    send 200 (role_updated role)

  purge : H (Unit {0})
  unfolding purge_expired_refresh_tokens attempt
  purge = now env >>= λ t. query (attempt (purge_expired_refresh_tokens env.fault t)) internal

  -- The body is its field `password`.
  unfoldable pub change_password : Request → Text → Option Text → H (Unit {0})
  unfolding is_valid_email change_admin_password purge
  change_password r email body = do
    require (is_valid_email env email) (http_error 400 (codes "invalid email"))
    password ← or_bad_json body
    require (not (ltb (length password) 10)) (
        refuse env r 400 (codes "password must be at least 10 characters")
          (codes "change_admin_password") (actor_of r) email (codes "password too short"))
    hash ← or_else (env.bcrypt_hash password) internal
    query (change_admin_password env.fault email hash)
        (audited r (codes "change_admin_password") (actor_of r) email)
    purge
    write_audit env r (codes "change_admin_password") (actor_of r) email (codes "ok")
        (codes "password changed")
    send 200 (result (codes "password changed"))

  unfoldable pub handle_admins : Request → Option CreateAdminRequest → H (Unit {0})
  unfolding list_admins create_admin text_eq
  handle_admins r body =
      if text_eq r.method (codes "GET")
      then list_admins
      else if text_eq r.method (codes "POST")
      then create_admin r body
      else http_error 405 (codes "method not allowed")

  -- `body` is the one field that the route's body has.
  serve_route : Request → Option Text → Route → H (Unit {0})
  unfolding delete_admin change_admin_role change_password
  serve_route r body (delete_route email) = delete_admin r email
  serve_route r body (role_route email) = change_admin_role r email body
  serve_route r body (password_route email) = change_password r email body
  serve_route r body no_email = http_error 400 (codes "email is required")
  serve_route r body not_found = http_error 404 (codes "404 page not found")

  unfoldable pub handle_admin_by_email : Request → Option Text → H (Unit {0})
  unfolding serve_route route_of
  handle_admin_by_email r body = serve_route r body (route_of r)
