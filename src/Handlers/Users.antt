-- ===== src/Handlers/Users.antt =====
-- Mail users, the synchronisation of the files, and the audit log, in
-- cmd/mail-admin/app/handlers/service.go.
pub mod Synced
use ucware_mail_server.Base.{
  ℕ, Bool, not, ◌++◌, List, [], ◌∷◌, map, length, ltb, Option, if◌then◌else◌,
}
use ucware_mail_server.Text.{Text, codes, text_eq, is_empty, to_lower, trim_space, trim_prefix}
use ucware_mail_server.Sql.{Error, failed, Result, ok, err}
use ucware_mail_server.Store.Types.{User, AuditLog}
use ucware_mail_server.Store.Users.{list_users, upsert_user, delete_user, list_audit_logs}
use ucware_mail_server.Syncer.{export}
use ucware_mail_server.Security.{role_admin}
use ucware_mail_server.Http.{
  Request, Body, UserResponse, AuditResponse, Outcome, got, ◌>>=◌, ◌>>◌, pure, send, http_error,
  healthy, user, users, audits, result,
}
use ucware_mail_server.Handlers.State.{
  Config, Env, Service, H, or_else, query, internal, require, method_not_allowed, bad_request,
  forbidden, or_bad_json, error_text, parse_limit, is_valid_email, now, write_audit, refuse,
  audited,
}

pub record CreateUserRequest : Type 0 where
  pub email : Text
  pub password : Text

abbrev user_response : User → UserResponse
user_response u = record { email = u.email; created_at = u.created_at }

abbrev audit_response : AuditLog → AuditResponse
audit_response l = record {
  action = l.action;
  actor = l.actor;
  email = l.email;
  status = l.status;
  message = l.message;
  remote_ip = l.remote_ip;
  user_agent = l.user_agent;
  created_at = l.created_at;
}

unfoldable pub handle_healthz : Request → H (Unit {0})
unfolding text_eq
handle_healthz r = do require (text_eq r.method (codes "GET")) method_not_allowed; send 200 healthy

module _ (env : Env) (c : Config) where
  sync_files : Result (List User) → H (Result (Unit {0}))
  unfolding export
  sync_files (err e) s = (got (err e), s)
  sync_files (ok us) s = (
    got (export env.disk_fault c.export_config us s.disk).0,
    record s { disk = (export env.disk_fault c.export_config us s.disk).1 },
  )

  -- `syncNow`: the mutex makes it one step.
  unfoldable pub sync_now : H (Result (Unit {0}))
  unfolding list_users sync_files
  sync_now s =
      sync_files (list_users env.fault s.store).0
        (record s { store = (list_users env.fault s.store).1 })

  unfoldable pub list_all : H (Unit {0})
  unfolding list_users
  list_all = do
    rows ← query (list_users env.fault) internal
    send 200 (users (map user_response rows))

  unfoldable pub check_new_user : Request → Text → Text → H (Unit {0})
  unfolding is_valid_email
  check_new_user r email password = do
    require (is_valid_email env email) (
        refuse env r 400 (codes "invalid email") (codes "create_user") email
          (codes "invalid email"))
    require (not (ltb (length password) 10)) (
        refuse env r 400 (codes "password must be at least 10 characters") (codes "create_user")
          email (codes "password too short"))

  -- How a change ends: the files, the audit row, and the answer.
  unfoldable pub finish : Request → Text → Text → Text → ℕ → Body → H (Unit {0})
  unfolding sync_now
  finish r action email message status answer = do
    synced ← sync_now
    or_else synced (audited env r action email)
    write_audit env r action email (codes "ok") message
    send status answer

  unfoldable pub save_user : Request → Text → Text → H (Unit {0})
  unfolding upsert_user finish
  save_user r email hash = do
    t ← now env
    u ← query (upsert_user env.fault t email hash) (audited env r (codes "create_user") email)
    finish r (codes "create_user") email (codes "created") 201 (user (user_response u))

  -- From the checked request on.
  unfoldable pub store_user : Request → Text → Text → H (Unit {0})
  unfolding save_user
  store_user r email password = do
    hash ← or_else (env.bcrypt_hash password) (audited env r (codes "create_user") email)
    save_user r email hash

  unfoldable pub create_user : Request → Option CreateUserRequest → H (Unit {0})
  unfolding check_new_user store_user to_lower trim_space
  create_user r body = do
    req ← or_bad_json body
    check_new_user r (to_lower (trim_space req.email)) req.password
    store_user r (to_lower (trim_space req.email)) req.password

  unfoldable pub handle_users : Request → Option CreateUserRequest → H (Unit {0})
  unfolding list_all create_user text_eq
  handle_users r body =
      if text_eq r.method (codes "GET")
      then list_all
      else if text_eq r.method (codes "POST")
      then (require (text_eq r.role role_admin) forbidden >> create_user r body)
      else method_not_allowed

  -- From the checked email on.
  unfoldable pub remove_user : Request → Text → H (Unit {0})
  unfolding delete_user finish to_lower
  remove_user r email = do
    query (delete_user env.fault (to_lower email)) (audited env r (codes "delete_user") email)
    finish r (codes "delete_user") email (codes "deleted") 200 (result (codes "deleted"))

  unfoldable pub handle_user_by_email : Request → H (Unit {0})
  unfolding remove_user is_valid_email trim_prefix text_eq
  handle_user_by_email r = do
    require (text_eq r.method (codes "DELETE")) method_not_allowed
    let email = trim_prefix r.path (codes "/v1/users/")
    require (not (is_empty email)) (bad_request (codes "email is required"))
    require (is_valid_email env email) (
        refuse env r 400 (codes "invalid email") (codes "delete_user") email
          (codes "invalid email"))
    remove_user r email

  unfoldable pub handle_sync : Request → H (Unit {0})
  unfolding finish text_eq
  handle_sync r = do
    require (text_eq r.method (codes "POST")) method_not_allowed
    finish r (codes "sync") [] (codes "synced") 200 (result (codes "synced"))

  -- The argument is the query parameter `limit`.
  unfoldable pub handle_audits : Request → Text → H (Unit {0})
  unfolding parse_limit list_audit_logs text_eq
  handle_audits r raw_limit = do
    require (text_eq r.method (codes "GET")) method_not_allowed
    limit ← parse_limit raw_limit
    rows ← query (list_audit_logs env.fault limit) internal
    send 200 (audits (map audit_response rows))

  initial_sync_error : Result (Unit {0}) → Result (Unit {0})
  initial_sync_error (ok _) = ok tt
  initial_sync_error (err e) = err (failed (codes "initial sync error: " ++ error_text e))

  unfoldable pub ensure_initial_sync : H (Result (Unit {0}))
  unfolding sync_now initial_sync_error
  ensure_initial_sync = do synced ← sync_now; pure (initial_sync_error synced)
