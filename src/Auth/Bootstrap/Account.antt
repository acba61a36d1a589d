-- ===== src/Auth/Bootstrap/Account.antt =====
-- The account that the start of the server leaves.
use ucware_mail_server.Base.{
  ℕ, ◌+◌, ◌≤◌, ◌≡◌, refl, inl, inr, some, List, [], ◌∷◌, find?, length, ltb, arith, Bool-cases,
  Option-cases,
}
use ucware_mail_server.Text.{Text}
use ucware_mail_server.Text.Equality.{text_eq_self}
use ucware_mail_server.Sql.{ok, Result-cases}
use ucware_mail_server.Store.Types.{AdminUser, statement}
use ucware_mail_server.Store.Admins.{
  is_admin, put_admin, new_admin, get_admin_user_by_email, upsert_admin_user,
}
use ucware_mail_server.Auth.State.{Config, Env, Service, is_valid_email}
use ucware_mail_server.Auth.Bootstrap.{bootstrap_email, store_account, ensure_bootstrap_admin}

-- The row of the email has the hash and the role.
pub record Account (email hash role : Text) (rows : List AdminUser) : Type 0 where
  pub row : AdminUser
  pub found : find? (is_admin email) rows ≡ some row
  pub hash_is : row.password_hash ≡ hash
  pub role_is : row.role ≡ role

pub put-Account :
    (now : ℕ) (email hash role : Text) (rows : List AdminUser)
    → Account email hash role (
        put_admin
          (new_admin now email hash role)
          (λ b. record b { password_hash = hash; role = role })
          rows)
unfolding put_admin
put-Account now email hash role [] = record {
  row = new_admin now email hash role;
  found = rw (text_eq_self email) refl;
  hash_is = refl;
  role_is = refl;
}
put-Account now email hash role (b ∷ rows) = elim (Bool-cases (is_admin email b)) [
  | inl e ↦ rw e (record {
    row = record b { password_hash = hash; role = role };
    found = rw e refl;
    hash_is = refl;
    role_is = refl;
  })
  | inr e ↦
      let later = put-Account now email hash role rows in
      rw e (record {
        row = later.row;
        found = rw e later.found;
        hash_is = later.hash_is;
        role_is = later.role_is;
      })
]

module _ (env : Env) (c : Config) where
  store_account-Account :
      (hash : Text) (s : Service)
      → (store_account env c (ok hash) s).0 ≡ ok tt
      → Account
          (bootstrap_email c)
          hash
          c.bootstrap_admin_role
          (store_account env c (ok hash) s).1.store.admin_users
  unfolding store_account upsert_admin_user get_admin_user_by_email
  store_account-Account hash s h = elim (Option-cases (env.fault s.store.statements)) [
    | inr (why, f) ↦ absurd (ground (arith, rw (statement, f) at h))
    | inl f ↦ elim (Option-cases (env.fault (s.store.statements + 1))) [
      | inr (why, g) ↦ absurd (ground (arith, rw (statement, f, statement, g) at h))
      | inl g ↦
          let acc =
            put-Account (env.clock s.reads) (bootstrap_email c) hash c.bootstrap_admin_role
              s.store.admin_users in
          rw (statement, f, statement, g, acc.found) acc
    ]
  ]

  -- A start that reports no error leaves an account of the configured email, in lower case and
  -- trimmed, with the configured role and the hash of the configured password, which has at least
  -- 10 bytes: an account that was there before gets the role as well as the password.
  pub ensure_bootstrap_admin-Account :
      (s : Service)
      → (ensure_bootstrap_admin env c s).0 ≡ ok tt
      → (hash : Text) × (env.bcrypt_hash c.bootstrap_admin_password ≡ ok hash)
        × (10 ≤ length c.bootstrap_admin_password)
        × Account
            (bootstrap_email c)
            hash
            c.bootstrap_admin_role
            (ensure_bootstrap_admin env c s).1.store.admin_users
  unfolding ensure_bootstrap_admin
  ensure_bootstrap_admin-Account s h = elim (Bool-cases (is_valid_email env (bootstrap_email c))) [
    | inr e ↦ absurd (ground (arith, rw e at h))
    | inl e ↦ elim (Bool-cases (ltb (length c.bootstrap_admin_password) 10)) [
      | inl f ↦ absurd (ground (arith, rw (e, f) at h))
      | inr f ↦ elim (Result-cases (env.bcrypt_hash c.bootstrap_admin_password)) [
        | inr (x, g) ↦ absurd (ground (arith, rw (e, f, g, store_account) at h))
        | inl (hash, g) ↦ (
          hash,
          g,
          ground (arith, f),
          rw (e, f, g) (store_account-Account hash s (rw (e, f, g) at h)),
        )
      ]
    ]
  ]
