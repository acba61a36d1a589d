-- ===== src/Auth/Admins/Guards.antt =====
-- What guards the changes of administrators.
use ucware_mail_server.Base.{
  ◌+◌, ◌≡◌, ◌≢◌, refl, ap, ◌∙◌, sym, inl, inr, Option, some, List, [], ◌∷◌, find?, if◌then◌else◌,
  Bool-cases, Option-cases,
}
use ucware_mail_server.Text.{Text, text_eq}
use ucware_mail_server.Text.Equality.{text_eq_iff, ne_of_text_eq}
use ucware_mail_server.Sql.{delete_where}
use ucware_mail_server.Store.Types.{AdminUser, statement}
use ucware_mail_server.Store.Frames.{insert_audit_log-admin_users}
use ucware_mail_server.Store.Admins.{is_admin, delete_admin_user}
use ucware_mail_server.Http.{Request}
use ucware_mail_server.Auth.State.{Env, Service, is_valid_email, actor_of}
use ucware_mail_server.Auth.Admins.{delete_admin}

-- A deletion of other rows does not hide a row.
find?-delete_where :
    (email other : Text) (rows : List AdminUser)
    → email ≢ other
    → find? (is_admin other) (delete_where (is_admin email) rows) ≡ find? (is_admin other) rows
find?-delete_where email other [] n = refl
find?-delete_where email other (a ∷ rows) n = elim (Bool-cases (is_admin email a)) [
  | inr e ↦
      rw e
        (ap (λ o. if is_admin other a then some a else o) (find?-delete_where email other rows n))
  | inl e ↦ elim (Bool-cases (is_admin other a)) [
    | inl f ↦ absurd (n (sym ((text_eq_iff a.email email).0 e) ∙ (text_eq_iff a.email other).0 f))
    | inr f ↦ rw (e, f) (find?-delete_where email other rows n)
  ]
]

module _ (env : Env) where
  -- The row of an email.
  abbrev pub row_of : Text → Service → Option AdminUser
  row_of email s = find? (is_admin email) s.store.admin_users

  -- Whatever email a request to delete an administrator names and whatever statements fail, the row
  -- of the one who makes the request is the same afterwards.
  pub delete_admin-row_of :
      (r : Request) (email : Text) (s : Service)
      → row_of (actor_of r) (delete_admin env r email s).1 ≡ row_of (actor_of r) s
  unfolding delete_admin
  delete_admin-row_of r email s = elim (Bool-cases (text_eq email (actor_of r))) [
    | inl e ↦
        rw e
          (ap (find? (is_admin (actor_of r))) (insert_audit_log-admin_users env.fault _ _ s.store))
    | inr e ↦ elim (Bool-cases (is_valid_email env email)) [
      | inr v ↦ rw (e, v) refl
      | inl v ↦ elim (Option-cases (env.fault s.store.statements)) [
        | inr (why, f) ↦
            rw (e, v, delete_admin_user, statement, f)
              (ap (find? (is_admin (actor_of r))) (
                insert_audit_log-admin_users env.fault _ _
                  (record s.store { statements = s.store.statements + 1 })))
        | inl f ↦
            rw (e, v, delete_admin_user, statement, f)
              (ap (find? (is_admin (actor_of r))) (
                  insert_audit_log-admin_users env.fault _ _ (record s.store {
                    statements = s.store.statements + 1;
                    admin_users = delete_where (is_admin email) s.store.admin_users;
                  }))
                ∙ find?-delete_where email (actor_of r) s.store.admin_users
                    (ne_of_text_eq email (actor_of r) e))
      ]
    ]
  ]
