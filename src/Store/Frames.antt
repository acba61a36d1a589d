-- ===== src/Store/Frames.antt =====
-- Which tables the writing of an audit row leaves as they are.
use ucware_mail_server.Base.{ℕ, ◌≡◌, refl, inl, inr, Option, Option-cases}
use ucware_mail_server.Text.{Text}
use ucware_mail_server.Store.Types.{AuditLog, Store, statement}
use ucware_mail_server.Store.Users.{insert_audit_log}

module _ (fault : ℕ → Option Text) (t : ℕ) (l : AuditLog) (s : Store) where
  pub insert_audit_log-admin_users : (insert_audit_log fault t l s).1.admin_users ≡ s.admin_users
  unfolding insert_audit_log
  insert_audit_log-admin_users = elim (Option-cases (fault s.statements)) [
    | inl e ↦ rw (e, statement) refl
    | inr (why, e) ↦ rw (e, statement) refl
  ]

  pub insert_audit_log-totp_challenges :
      (insert_audit_log fault t l s).1.totp_challenges ≡ s.totp_challenges
  unfolding insert_audit_log
  insert_audit_log-totp_challenges = elim (Option-cases (fault s.statements)) [
    | inl e ↦ rw (e, statement) refl
    | inr (why, e) ↦ rw (e, statement) refl
  ]

  pub insert_audit_log-users : (insert_audit_log fault t l s).1.users ≡ s.users
  unfolding insert_audit_log
  insert_audit_log-users = elim (Option-cases (fault s.statements)) [
    | inl e ↦ rw (e, statement) refl
    | inr (why, e) ↦ rw (e, statement) refl
  ]
