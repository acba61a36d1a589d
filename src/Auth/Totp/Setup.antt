-- ===== src/Auth/Totp/Setup.antt =====
-- What `HandleTOTPSetup` does to the account.
use ucware_mail_server.Base.{
  ◌+◌, ◌≡◌, ◌≢◌, refl, ap, ◌∙◌, sym, true, none, Option, if◌then◌else◌, inl, inr, false, some, List,
  [], ◌∷◌, find?, arith, Bool-cases, Option-cases,
}
use ucware_mail_server.Text.{Text, codes, text_eq}
use ucware_mail_server.Text.Equality.{text_eq_iff}
use ucware_mail_server.Sql.{update_where, Result-cases}
use ucware_mail_server.Store.Types.{AdminUser, statement}
use ucware_mail_server.Store.Frames.{insert_audit_log-admin_users}
use ucware_mail_server.Store.Admins.{is_admin, update_admin, set_totp_secret}
use ucware_mail_server.Http.{Request, Response, Outcome, sent, totp_setup}
use ucware_mail_server.Auth.State.{Env, Service, actor_of}
use ucware_mail_server.Auth.Totp.{require_post, handle_totp_setup}

abbrev pub pending_row : Text → AdminUser → AdminUser
pending_row secret a = record a { totp_secret = secret; totp_enabled = false }

abbrev pending_found : Text → Option AdminUser → Option AdminUser
pending_found secret none = none
pending_found secret (some a) = some (pending_row secret a)

-- The row of the email, if there is one, has got the secret and TOTP off, and is otherwise as it was;
-- no row has come for it, and the rows of other emails are as they were.
pub record Pending (email secret : Text) (before after : List AdminUser) : Type 0 where
  pub own :
      (row : AdminUser)
      → find? (is_admin email) before ≡ some row
      → find? (is_admin email) after ≡ some (pending_row secret row)
  pub absent : find? (is_admin email) before ≡ none → find? (is_admin email) after ≡ none
  pub others :
      (other : Text) → email ≢ other → find? (is_admin other) after ≡ find? (is_admin other) before

other_row :
    (email other : Text) (a : AdminUser)
    → email ≢ other
    → is_admin email a ≡ true
    → is_admin other a ≡ false
other_row email other a n m = elim (Bool-cases (is_admin other a)) [
  | inl f ↦ absurd (n (sym ((text_eq_iff a.email email).0 m) ∙ (text_eq_iff a.email other).0 f))
  | inr f ↦ f
]

set-Pending :
    (email secret : Text) (rows : List AdminUser)
    → Pending email secret rows (update_where (is_admin email) (pending_row secret) rows)
set-Pending email secret [] = record {
  own = λ row e. cc;
  absent = λ e. refl;
  others = λ other n. refl;
}
set-Pending email secret (a ∷ rows) =
    let rest = set-Pending email secret rows in
    elim (Bool-cases (is_admin email a)) [
      | inl m ↦ record {
        own = λ row e. rw (m, m) (ap (pending_found secret) (rw m at e));
        absent = λ e. absurd (ground (arith, rw m at e));
        others = λ other n. rw (m, other_row email other a n m) (rest.others other n);
      }
      | inr m ↦ record {
        own = λ row e. rw (m, m) (rest.own row (rw m at e));
        absent = λ e. rw (m, m) (rest.absent (rw m at e));
        others = λ other n.
            rw m (ap (λ o. if is_admin other a then some a else o) (rest.others other n));
      }
    ]

abbrev the_answer : Response → Outcome (Unit {0})
the_answer a = sent a

setup_secret :
    (key : Text × Text) (secret url : Text)
    → the_answer (record { status = 200; body = totp_setup key.0 key.1 })
      ≡ sent (record { status = 200; body = totp_setup secret url })
    → key.0 ≡ secret
setup_secret key secret url h = ground (arith, h)

module _ (env : Env) where
  -- A setup that is answered with a secret has put it into the row of the actor, if there is one,
  -- and switched TOTP off there, also where it was on; the row is otherwise as it was, and so are
  -- those of the others. If the actor has no row, the secret of the answer is stored nowhere.
  pub handle_totp_setup-Pending :
      (r : Request) (s : Service) (secret url : Text)
      → (handle_totp_setup env r s).0 ≡ sent (record { status = 200; body = totp_setup secret url })
      → Pending
          (actor_of r)
          secret
          s.store.admin_users
          (handle_totp_setup env r s).1.store.admin_users
  unfolding handle_totp_setup require_post
  handle_totp_setup-Pending r s secret url h = elim (Bool-cases (text_eq r.method (codes "POST"))) [
    | inr e ↦ absurd (ground (arith, rw e at h))
    | inl e ↦ elim (Result-cases (env.totp_generate (env.clock s.reads) (actor_of r))) [
      | inr (x, g) ↦ absurd (ground (arith, rw (e, g) at h))
      | inl (key, g) ↦ elim (Option-cases (env.fault s.store.statements)) [
        | inr (why, f) ↦ absurd (ground (arith, rw (e, g, set_totp_secret, statement, f) at h))
        | inl f ↦
            rw (e, g, set_totp_secret, statement, f)
              (rw
                (
                  sym (setup_secret key secret url (rw (e, g, set_totp_secret, statement, f) at h)),
                  insert_audit_log-admin_users env.fault _ _ (
                      update_admin (actor_of r) (pending_row key.0)
                        (record s.store { statements = s.store.statements + 1 })),
                )
                (set-Pending (actor_of r) key.0 s.store.admin_users))
      ]
    ]
  ]
