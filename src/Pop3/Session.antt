-- ===== src/Pop3/Session.antt =====
-- `pop3Session` of cmd/mail-admin/app/pop3_server.go: authentication, the maildrop, and the commit.
pub mod Commit
pub mod LogIn
use ucware_mail_server.Base.{
  ℕ, ◌+◌, Bool, false, Option, none, some, List, [], ◌∷◌, ◌++◌, map, leb, if◌then◌else◌, length,
  find?,
}
use ucware_mail_server.Text.{Text, codes, is_empty, equal_fold}
use ucware_mail_server.Text.Numbers.{format_int}
use ucware_mail_server.Sql.{Error, failed, Result, ok, err, Exec, pure, raise, gets, ◌>>=◌, ◌>>◌}
use ucware_mail_server.Store.Types.{User, Store}
use ucware_mail_server.Store.Users.{list_users_by_email}
use ucware_mail_server.Archive.{
  Mailbox, Message, Archive, Sql, list_mailboxes, list_messages, delete_message,
}
use ucware_mail_server.Pop3.Maildrop.{Msg}
use ucware_mail_server.Pop3.Wire.{ok_line, err_line}

-- What the connection does not decide: the faults of the two databases, `bcrypt`'s comparison of a
-- hash with a password, and the setting `ArchiveInboundMailbox`.
pub record Env : Type 0 where
  pub fault : ℕ → Option Text
  pub sql : Sql
  pub bcrypt_ok : Text → Text → Bool
  pub inbound : Text

pub data Phase : Type 0 where
  auth txn closed : Phase

-- `out` holds what was written, in order.
pub record Session : Type 0 where
  pub phase : Phase
  pub pending_user : Text
  pub auth_fails : ℕ
  pub user_email : Text
  pub messages : List Msg
  pub store : Store
  pub archive : Archive
  pub out : List Text

abbrev pub write : List Text → Session → Session
write ls s = record s { out = s.out ++ ls }

abbrev pub reply_ok : Text → Session → Session
reply_ok body s = write (ok_line body ∷ []) s

abbrev pub reply_err : Text → Session → Session
reply_err body s = write (err_line body ∷ []) s

abbrev pub close : Session → Session
close s = record s { phase = closed }

abbrev pub max_auth_fails : ℕ
max_auth_fails = 3

check_password : (Text → Text → Bool) → Text → List User → Exec Store (Unit {0})
check_password bcrypt_ok password [] = raise (failed (codes "user not found"))
check_password bcrypt_ok password (u ∷ _) =
    if bcrypt_ok u.password_hash password
    then pure tt
    else raise (failed (codes "hashedPassword is not the hash of the given password"))

-- `mailboxID` after the loop over the mailboxes: empty if none has the name.
unfoldable pub inbox_id : Text → List Mailbox → Text
unfolding equal_fold
inbox_id name [] = []
inbox_id name (b ∷ bs) = if equal_fold b.name name then b.id else inbox_id name bs

abbrev pub msg_of : Message → Msg
msg_of m = record { id = m.id; size = m.size_bytes; deleted = false }

module _ (env : Env) where
  unfoldable pub authenticate : Text → Text → Exec Store (Unit {0})
  unfolding list_users_by_email check_password
  authenticate email password = do
    users ← list_users_by_email env.fault email
    check_password env.bcrypt_ok password users

  -- An inbox that is not there yet is an empty maildrop.
  unfoldable pub load_messages : Text → Exec Archive (List Msg)
  unfolding list_messages
  load_messages [] = pure []
  load_messages (c ∷ id) = do msgs ← list_messages env.sql (c ∷ id) 1000; pure (map msg_of msgs)

  unfoldable pub load_mailbox : Text → Exec Archive (List Msg)
  unfolding list_mailboxes load_messages inbox_id
  load_mailbox user_email = do
    boxes ← list_mailboxes env.sql user_email
    load_messages (inbox_id env.inbound boxes)

  auth_failed : Session → Session
  auth_failed s =
      if leb max_auth_fails s.auth_fails
      then close (reply_err (codes "too many authentication failures") s)
      else reply_err (codes "invalid credentials") s

  maildrop_ready : Session → Result (List Msg) → Session
  unfolding format_int
  maildrop_ready s (err _) = close (reply_err (codes "maildrop access failed") s)
  maildrop_ready s (ok ms) =
      reply_ok (codes "maildrop ready, " ++ (format_int (length ms) ++ codes " message(s)"))
        (record s { messages = ms; phase = txn })

  enter : Session → Session
  unfolding load_mailbox maildrop_ready
  enter s =
      let loaded = load_mailbox s.user_email s.archive in
      maildrop_ready (record s { archive = loaded.1 }) loaded.0

  after_authentication : Session → Result (Unit {0}) → Session
  unfolding auth_failed enter
  after_authentication s (err _) =
      auth_failed (record s { auth_fails = s.auth_fails + 1; pending_user = [] })
  after_authentication s (ok _) =
      enter (record s { user_email = s.pending_user; pending_user = [] })

  -- `PASS` with a user pending.
  unfoldable pub log_in : Session → Text → Session
  unfolding authenticate after_authentication
  log_in s password =
      let checked = authenticate s.pending_user password s.store in
      after_authentication (record s { store = checked.1 }) checked.0

  -- The error of a deletion is logged only.
  unfoldable pub commit_deletions : List Msg → Archive → Archive
  unfolding delete_message
  commit_deletions [] a = a
  commit_deletions (m ∷ ms) a =
      commit_deletions ms (if m.deleted then (delete_message env.sql m.id a).1 else a)
