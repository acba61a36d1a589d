-- ===== src/Handlers/Users/Synced.antt =====
-- The files of Dovecot and Postfix after a change of the mail users, in
-- cmd/mail-admin/app/handlers/service.go.
use ucware_mail_server.Base.{
  ℕ, ◌+◌, ◌≡◌, inl, inr, refl, Bool, true, false, Option, none, some, List, [], arith, not,
  Option-cases, ltb, length,
}
use ucware_mail_server.Text.{Text, codes, is_empty, text_eq, to_lower, trim_space, trim_prefix}
use ucware_mail_server.Text.Order.{sort, text_lt}
use ucware_mail_server.Sql.{Error, Result, ok, err, Exec}
use ucware_mail_server.Store.Types.{User, Store, statement}
use ucware_mail_server.Store.Users.{list_users, upsert_user, delete_user}
use ucware_mail_server.Store.Frames.{insert_audit_log-users}
use ucware_mail_server.Syncer.{export}
use ucware_mail_server.Syncer.Atomic.{OnDisk, Exports, export-Exports}
use ucware_mail_server.Http.{Request, Body, Response, ◌>>=◌, send, user, result}
use ucware_mail_server.Http.Ends.{Ends, bind-Ends, RefusedOr, Any, Never}
use ucware_mail_server.Handlers.State.{
  Config, Env, Service, H, or_else, query, require, bad_request, method_not_allowed, is_valid_email,
  audit_row, write_audit, refuse, audited,
}
use ucware_mail_server.Handlers.Users.{
  CreateUserRequest, sync_files, sync_now, check_new_user, store_user, create_user, finish,
  save_user, remove_user, handle_user_by_email, handle_sync, user_response,
}

-- The exported files are those of the table of users.
abbrev pub Synced : Config → Service → Type 0
Synced c s = OnDisk c.export_config (sort (λ u v. text_lt u.email v.email) s.store.users) s.disk

module _ (env : Env) (c : Config) where
  abbrev pub Q : Response → Service → Type 0
  Q = RefusedOr (Synced c)

  -- The outcome of `syncNow`.
  abbrev AfterSync : Result (Unit {0}) → Service → Type 0
  AfterSync (ok _) s = Synced c s
  AfterSync (err e) s = Unit

  abbrev Now : Unit {0} → Service → Type 0
  Now _ s = Synced c s

  write_audit-Synced :
      (r : Request) (action email status message : Text) (s : Service)
      → Synced c s
      → Ends Now Q (write_audit env r action email status message s)
  write_audit-Synced r action email status message s h =
      rw
        (insert_audit_log-users env.fault (env.clock s.reads)
          (audit_row env r action email status message) s.store)
        h

  or_else-Ends :
      {A : Type 0} (P : A → Service → Type 0) (r : Result A) (f : Error → H A) (s : Service)
      → ((a : A) → r ≡ ok a → P a s)
      → ((e : Error) → Ends P Q (f e s))
      → Ends P Q (or_else r f s)
  or_else-Ends P (ok a) f s h g = h a refl
  or_else-Ends P (err e) f s h g = g e

  audited-Ends :
      {A : Type 0} (P : A → Service → Type 0) (r : Request) (action email : Text) (e : Error)
      (s : Service)
      → Ends P Q (audited env r action email e s)
  audited-Ends P r action email e s = inl (omega arith)

  query-Ends :
      {A : Type 0} (m : Exec Store A) (r : Request) (action email : Text) (s : Service)
      → Ends Any Q (query m (audited env r action email) s)
  query-Ends {A} m r action email s =
      or_else-Ends Any (m s.store).0 (audited env r action email)
        (record s { store = (m s.store).1 }) (λ a h. tt)
        (λ e. audited-Ends {A = A} Any r action email e (record s { store = (m s.store).1 }))

  after_export :
      (us : List User) (s : Service)
      → us ≡ sort (λ u v. text_lt u.email v.email) s.store.users
      → (x : Result (Unit {0}) × _) → Exports c.export_config us s.disk x
      → AfterSync x.0 (record s { disk = x.1 })
  after_export us s e (ok tt, d) h = rw (← e) h
  after_export us s e (err why, d) h = tt

  sync_now-Ends : (s : Service) → Ends AfterSync Q (sync_now env c s)
  unfolding sync_now sync_files list_users
  sync_now-Ends s = elim (Option-cases (env.fault s.store.statements)) [
    | inr (why, e) ↦ rw (e, statement) tt
    | inl e ↦
        let t = record s { store = record s.store { statements = s.store.statements + 1 } } in
        let us = sort (λ (u v : User). text_lt u.email v.email) s.store.users in
        rw (e, statement)
          (after_export us t refl (export env.disk_fault c.export_config us s.disk)
            (export-Exports env.disk_fault c.export_config us s.disk))
  ]

  finish-Synced :
      (r : Request) (action email message : Text) (status : ℕ) (b : Body) (s : Service)
      → Ends Never Q (finish env c r action email message status b s)
  unfolding finish
  finish-Synced r action email message status b s =
      let row = write_audit env r action email (codes "ok") message in
      bind-Ends {B = Unit {0}} Q AfterSync Never (sync_now env c)
        (λ x. or_else x (audited env r action email) >>= λ _. row >>= λ _. send status b) s
        (sync_now-Ends s)
        λ x t h.
          bind-Ends {B = Unit {0}} Q Now Never (or_else x (audited env r action email))
            (λ _. row >>= λ _. send status b) t
            (or_else-Ends Now x (audited env r action email) t (λ a e. rw e at h)
              λ e. audited-Ends Now r action email e t)
            λ _ u k.
              bind-Ends {B = Unit {0}} Q Now Never row (λ _. send status b) u
                (write_audit-Synced r action email (codes "ok") message u k) λ _ v m. inr m

  require-Ends :
      (b : Bool) (f : H (Unit {0})) (s : Service) → Ends Any Q (f s) → Ends Any Q (require b f s)
  require-Ends true f s h = tt
  require-Ends false f s h = h

  -- A test that fails with a refusal, before the rest.
  required :
      (b : Bool) (f k : H (Unit {0})) (s : Service)
      → Ends Never Q (f s)
      → ((t : Service) → Ends Never Q (k t))
      → Ends Never Q ((require b f >>= λ _. k) s)
  required true f k s h g = g s
  required false f k s h g = bind-Ends Q Never Never f (λ _. k) s h λ _ t n. absurd n

  save_user-Synced :
      (r : Request) (email hash : Text) (s : Service)
      → Ends Never Q (save_user env c r email hash s)
  unfolding save_user
  save_user-Synced r email hash s =
      let t = record s { reads = s.reads + 1 } in
      let refused : Error → H User = audited env r (codes "create_user") email in
      bind-Ends Q Any Never (query (upsert_user env.fault (env.clock s.reads) email hash) refused)
        (λ u.
          finish env c r (codes "create_user") email (codes "created") 201 (user (user_response u)))
        t
        (query-Ends (upsert_user env.fault (env.clock s.reads) email hash) r (codes "create_user")
          email t)
        λ u v _.
          finish-Synced r (codes "create_user") email (codes "created") 201 (user (user_response u))
            v

  store_user-Synced :
      (r : Request) (email password : Text) (s : Service)
      → Ends Never Q (store_user env c r email password s)
  unfolding store_user
  store_user-Synced r email password s =
      let refused : Error → H Text = audited env r (codes "create_user") email in
      bind-Ends Q Any Never (or_else (env.bcrypt_hash password) refused) (save_user env c r email) s
        (or_else-Ends Any (env.bcrypt_hash password) refused s (λ a e. tt)
          λ e. audited-Ends {A = Text} Any r (codes "create_user") email e s)
        λ hash t _. save_user-Synced r email hash t

  check_new_user-Ends :
      (r : Request) (email password : Text) (s : Service)
      → Ends Any Q (check_new_user env c r email password s)
  unfolding check_new_user
  check_new_user-Ends r email password s =
      let no_email : H (Unit {0}) =
        refuse env r 400 (codes "invalid email") (codes "create_user") email
          (codes "invalid email") in
      let too_short : H (Unit {0}) =
        refuse env r 400 (codes "password must be at least 10 characters") (codes "create_user")
          email (codes "password too short") in
      bind-Ends Q Any Any (require (is_valid_email env email) no_email)
        (λ _. require (not (ltb (length password) 10)) too_short) s
        (require-Ends (is_valid_email env email) no_email s (inl (omega arith)))
        λ _ t _. require-Ends (not (ltb (length password) 10)) too_short t (inl (omega arith))

  create_user-Synced :
      (r : Request) (body : Option CreateUserRequest) (s : Service)
      → Ends Never Q (create_user env c r body s)
  unfolding create_user check_new_user
  create_user-Synced r none s = inl (omega arith)
  create_user-Synced r (some req) s =
      let email = to_lower (trim_space req.email) in
      bind-Ends Q Any Never (check_new_user env c r email req.password)
        (λ _. store_user env c r email req.password) s (check_new_user-Ends r email req.password s)
        λ _ t _. store_user-Synced r email req.password t

  remove_user-Synced :
      (r : Request) (email : Text) (s : Service) → Ends Never Q (remove_user env c r email s)
  unfolding remove_user
  remove_user-Synced r email s =
      let refused : Error → H (Unit {0}) = audited env r (codes "delete_user") email in
      bind-Ends Q Any Never (query (delete_user env.fault (to_lower email)) refused)
        (λ _.
          finish env c r (codes "delete_user") email (codes "deleted") 200
            (result (codes "deleted")))
        s (query-Ends (delete_user env.fault (to_lower email)) r (codes "delete_user") email s)
        λ u v _.
          finish-Synced r (codes "delete_user") email (codes "deleted") 200
            (result (codes "deleted")) v

  handle_user_by_email-Synced :
      (r : Request) (s : Service) → Ends Never Q (handle_user_by_email env c r s)
  unfolding handle_user_by_email
  handle_user_by_email-Synced r s =
      let email = trim_prefix r.path (codes "/v1/users/") in
      let no_email : H (Unit {0}) = bad_request (codes "email is required") in
      let not_email : H (Unit {0}) =
        refuse env r 400 (codes "invalid email") (codes "delete_user") email
          (codes "invalid email") in
      let rest : H (Unit {0}) = remove_user env c r email in
      let checked : H (Unit {0}) = require (is_valid_email env email) not_email >>= λ _. rest in
      required (text_eq r.method (codes "DELETE")) method_not_allowed
        (require (not (is_empty email)) no_email >>= λ _. checked) s (inl (omega arith))
        λ t. required (not (is_empty email)) no_email checked t (inl (omega arith)) λ u.
          required (is_valid_email env email) not_email rest u (inl (omega arith))
            λ v. remove_user-Synced r email v

  handle_sync-Synced : (r : Request) (s : Service) → Ends Never Q (handle_sync env c r s)
  unfolding handle_sync
  handle_sync-Synced r s =
      required (text_eq r.method (codes "POST")) method_not_allowed
        (finish env c r (codes "sync") [] (codes "synced") 200 (result (codes "synced"))) s
        (inl (omega arith))
        λ t. finish-Synced r (codes "sync") [] (codes "synced") 200 (result (codes "synced")) t

  -- `createUser`, `HandleUserByEmail` and `HandleSync` always answer: with a refusal, which has a
  -- status from 400 on, or after the files of Dovecot and Postfix have become those of the table of
  -- users.
  pub changes-Synced :
      (r : Request) (body : Option CreateUserRequest) (s : Service)
      → Ends Never Q (create_user env c r body s)
        × Ends Never Q (handle_user_by_email env c r s)
        × Ends Never Q (handle_sync env c r s)
  changes-Synced r body s =
      (create_user-Synced r body s, handle_user_by_email-Synced r s, handle_sync-Synced r s)
