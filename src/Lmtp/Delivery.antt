-- ===== src/Lmtp/Delivery.antt =====
-- `deliverOne` and `findOrCreateMailbox` of cmd/mail-admin/app/lmtp_server.go.
pub mod Stored
use ucware_mail_server.Base.{ℕ, Option, none, some, List, [], ◌∷◌, if◌then◌else◌, length}
use ucware_mail_server.Text.{Text, codes, equal_fold}
use ucware_mail_server.Sql.{Error, Result, ok, err, Exec, pure, raise, gets, modify, ◌>>=◌, ◌>>◌}
use ucware_mail_server.Archive.{
  Mailbox, Archive, Sql, list_mailboxes, create_mailbox, create_message,
}

-- What the session does not decide: the archive's database, the clock at the n-th UUID and at the
-- reception of data, the parser of MIME messages (subject and text body), and the settings.
pub record Env : Type 0 where
  pub sql : Sql
  pub clock : ℕ → ℕ
  pub received : ℕ → ℕ
  pub parse_mime : Text → Text × Text
  pub inbound : Text
  pub domain : Text
  pub max_message_bytes : ℕ

-- Go's `if err != nil { … }` where the branch does not just return.
abbrev pub recover : {S A : Type 0} → (Error → Exec S A) → Result A × S → Result A × S
recover f (ok a, s) = (ok a, s)
recover f (err e, s) = f e s

abbrev pub catch : {S A : Type 0} → Exec S A → (Error → Exec S A) → Exec S A
catch m f s = recover f (m s)

-- The loop over the mailboxes.
unfoldable pub named : Text → List Mailbox → Option Text
unfolding equal_fold
named name [] = none
named name (b ∷ bs) = if equal_fold b.name name then some b.id else named name bs

unfoldable pub or_raise : Error → Option Text → Exec Archive Text
or_raise e none = raise e
or_raise e (some id) = pure id

module _ (env : Env) where
  -- Another session may have made the mailbox since: look once more.
  unfoldable pub look_again : Text → Text → Error → Exec Archive Text
  unfolding list_mailboxes named or_raise
  look_again user_email name e = do
    boxes ← catch (list_mailboxes env.sql user_email) (λ _. raise e)
    or_raise e (named name boxes)

  unfoldable pub create : Text → Text → Exec Archive Text
  unfolding create_mailbox
  create user_email name = do
    n ← gets (λ a. a.ids)
    box ← create_mailbox env.sql (env.clock n) user_email name
    pure box.id

  unfoldable pub or_create : Text → Text → Option Text → Exec Archive Text
  unfolding create look_again
  or_create user_email name (some id) = pure id
  or_create user_email name none = catch (create user_email name) (look_again user_email name)

  unfoldable pub find_or_create_mailbox : Text → Text → Exec Archive Text
  unfolding list_mailboxes named or_create
  find_or_create_mailbox user_email name = do
    boxes ← list_mailboxes env.sql user_email
    or_create user_email name (named name boxes)

  unfoldable pub deliver_one : Text → Text → Text → ℕ → Exec Archive (Unit {0})
  unfolding find_or_create_mailbox create_message
  deliver_one from raw rcpt received_at = do
    id ← find_or_create_mailbox rcpt env.inbound
    n ← gets (λ a. a.ids)
    _ ← create_message env.sql (env.clock n) (record {
      mailbox_id = id;
      direction = codes "inbound";
      from_addr = from;
      to_addr = rcpt;
      subject = (env.parse_mime raw).0;
      raw_mime = raw;
      text_body = (env.parse_mime raw).1;
      size_bytes = length raw;
      received_at = received_at;
    })
    pure tt
