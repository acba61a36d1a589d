-- ===== src/Pop3/Session/LogIn.antt =====
-- `PASS`: who is let in, what is counted, and that the archive is only read.
use ucware_mail_server.Base.{
  ◌+◌, ◌<◌, ◌≡◌, ◌≢◌, ◌⊎◌, refl, inl, inr, true, List, [], ◌∷◌, map, arith, Option-cases,
}
use ucware_mail_server.Text.{Text}
use ucware_mail_server.Sql.{Result, ok, err}
use ucware_mail_server.Sql.Keeps.{Keeps, bind-Keeps, pure-Keeps}
use ucware_mail_server.Store.Types.{User, Store, statement}
use ucware_mail_server.Store.Users.{list_users_by_email, users_by_email}
use ucware_mail_server.Archive.{Archive}
use ucware_mail_server.Archive.Reads.{
  SameTables, same_refl, list_mailboxes-Fixed, list_messages-Fixed,
}
use ucware_mail_server.Pop3.Maildrop.{Msg}
use ucware_mail_server.Pop3.Session.{
  Env, txn, closed, Session, log_in, authenticate, check_password, load_messages, load_mailbox,
  inbox_id, msg_of, enter, after_authentication, maildrop_ready, auth_failed, max_auth_fails,
}

-- The first row of the user has a hash that the password matches.
pub record Authentic (env : Env) (email password : Text) (users : List User) : Type 0 where
  pub row : User
  pub others : List User
  pub found : users_by_email email users ≡ row ∷ others
  pub matches : env.bcrypt_ok row.password_hash password ≡ true

-- Fewer failures than the limit, or a closed connection.
abbrev pub FewFails : Session → Type 0
FewFails s =
    (s.auth_fails < max_auth_fails) ⊎ ((s.auth_fails ≡ max_auth_fails) × (s.phase ≡ closed))

module _ (env : Env) where
  load_messages-Fixed :
      (a : Archive) (id : Text) → Keeps (λ b. SameTables b a) (load_messages env id)
  unfolding load_messages
  load_messages-Fixed a [] = pure-Keeps []
  load_messages-Fixed a (c ∷ id) =
      bind-Keeps _ _ (list_messages-Fixed env.sql a (c ∷ id) 1000)
        λ msgs. pure-Keeps (map msg_of msgs)

  load_mailbox-Fixed :
      (a : Archive) (user_email : Text) → Keeps (λ b. SameTables b a) (load_mailbox env user_email)
  unfolding load_mailbox
  load_mailbox-Fixed a u =
      bind-Keeps _ _ (list_mailboxes-Fixed env.sql a u)
        λ boxes. load_messages-Fixed a (inbox_id env.inbound boxes)

  check_password-ok :
      (password : Text) (us : List User) (st : Store)
      → (check_password env.bcrypt_ok password us st).0 ≡ ok tt
      → (row : User) × (others : List User) × (us ≡ row ∷ others)
        × (env.bcrypt_ok row.password_hash password ≡ true)
  unfolding check_password
  check_password-ok password [] st h = cc
  check_password-ok password (u ∷ us) st h = (u, us, refl, ground arith)

  authenticate-Authentic :
      (email password : Text) (st : Store)
      → (authenticate env email password st).0 ≡ ok tt
      → Authentic env email password st.users
  unfolding authenticate list_users_by_email
  authenticate-Authentic email password st h = elim (Option-cases (env.fault st.statements)) [
    | inl e ↦
        let (row, others, found, matches) =
          check_password-ok password (users_by_email email st.users) _ (rw (e, statement) at h) in
        record { row = row; others = others; found = found; matches = matches }
    | inr (why, e) ↦ absurd (ground (arith, rw (e, statement) at h))
  ]

  maildrop_ready-user :
      (s : Session) (r : Result (List Msg)) → (maildrop_ready env s r).user_email ≡ s.user_email
  unfolding maildrop_ready
  maildrop_ready-user s (ok ms) = refl
  maildrop_ready-user s (err e) = refl

  enter-user : (s : Session) → (enter env s).user_email ≡ s.user_email
  unfolding enter
  enter-user s =
      maildrop_ready-user (record s { archive = (load_mailbox env s.user_email s.archive).1 })
        (load_mailbox env s.user_email s.archive).0

  after_authentication-txn :
      (s : Session) (r : Result (Unit {0}))
      → s.phase ≢ txn
      → (after_authentication env s r).phase ≡ txn
      → (r ≡ ok tt) × ((after_authentication env s r).user_email ≡ s.pending_user)
  unfolding after_authentication auth_failed
  after_authentication-txn s (ok _) n h =
      (refl, enter-user (record s { user_email = s.pending_user; pending_user = [] }))
  after_authentication-txn s (err e) n h = absurd (ground arith)

  -- `PASS` reaches the TRANSACTION state only with a password that matches the hash of the row of
  -- the pending user.
  pub log_in-Authentic :
      (s : Session) (password : Text)
      → s.phase ≢ txn
      → (log_in env s password).phase ≡ txn
      → Authentic env s.pending_user password s.store.users
        × ((log_in env s password).user_email ≡ s.pending_user)
  unfolding log_in
  log_in-Authentic s password n h =
      let done =
        after_authentication-txn
          (record s { store = (authenticate env s.pending_user password s.store).1 })
          (authenticate env s.pending_user password s.store).0 n h in
      (authenticate-Authentic s.pending_user password s.store done.0, done.1)

  -- The archive is only read.
  maildrop_ready-archive :
      (s : Session) (r : Result (List Msg)) → (maildrop_ready env s r).archive ≡ s.archive
  unfolding maildrop_ready
  maildrop_ready-archive s (ok ms) = refl
  maildrop_ready-archive s (err e) = refl

  enter-SameTables : (s : Session) → SameTables (enter env s).archive s.archive
  unfolding enter
  enter-SameTables s =
      rw
        (maildrop_ready-archive (record s { archive = (load_mailbox env s.user_email s.archive).1 })
          (load_mailbox env s.user_email s.archive).0)
        ((load_mailbox-Fixed s.archive s.user_email).at s.archive (same_refl s.archive))

  auth_failed-archive : (s : Session) → (auth_failed env s).archive ≡ s.archive
  unfolding auth_failed
  auth_failed-archive s = ground arith

  after_authentication-SameTables :
      (s : Session) (r : Result (Unit {0}))
      → SameTables (after_authentication env s r).archive s.archive
  unfolding after_authentication
  after_authentication-SameTables s (err e) =
      rw (auth_failed-archive (record s { auth_fails = s.auth_fails + 1; pending_user = [] }))
        (same_refl s.archive)
  after_authentication-SameTables s (ok _) =
      enter-SameTables (record s { user_email = s.pending_user; pending_user = [] })

  pub log_in-SameTables :
      (s : Session) (password : Text) → SameTables (log_in env s password).archive s.archive
  unfolding log_in
  log_in-SameTables s password =
      after_authentication-SameTables
        (record s { store = (authenticate env s.pending_user password s.store).1 })
        (authenticate env s.pending_user password s.store).0

  maildrop_ready-auth_fails :
      (s : Session) (r : Result (List Msg)) → (maildrop_ready env s r).auth_fails ≡ s.auth_fails
  unfolding maildrop_ready
  maildrop_ready-auth_fails s (ok ms) = refl
  maildrop_ready-auth_fails s (err e) = refl

  enter-auth_fails : (s : Session) → (enter env s).auth_fails ≡ s.auth_fails
  unfolding enter
  enter-auth_fails s =
      maildrop_ready-auth_fails (record s { archive = (load_mailbox env s.user_email s.archive).1 })
        (load_mailbox env s.user_email s.archive).0

  after_authentication-FewFails :
      (s : Session) (r : Result (Unit {0}))
      → s.auth_fails < max_auth_fails
      → FewFails (after_authentication env s r)
  unfolding after_authentication auth_failed
  after_authentication-FewFails s (err e) h = ground arith
  after_authentication-FewFails s (ok _) h = inl (
      omega (arith, enter-auth_fails (record s { user_email = s.pending_user; pending_user = [] })))

  pub log_in-FewFails :
      (s : Session) (password : Text)
      → s.auth_fails < max_auth_fails
      → FewFails (log_in env s password)
  unfolding log_in
  log_in-FewFails s password h =
      after_authentication-FewFails
        (record s { store = (authenticate env s.pending_user password s.store).1 })
        (authenticate env s.pending_user password s.store).0 h
