-- ===== src/Archive/Integrity.antt =====
-- What holds of the rows after every operation of
-- cmd/mail-admin/app/internal/archive/sqlstore.go: the keys that the DDL of `init` declares, and
-- what the operations themselves make of identifiers and texts.
pub mod Rows
use ucware_mail_server.Base.{
  ℕ, ◌+◌, ◌<◌, ◌≡◌, refl, inl, inr, Bool, true, false, not, ◌||◌, Option, none, some, List, [], ◌∷◌,
  arith, filter, Bool-cases, Option-cases,
}
use ucware_mail_server.Text.{Text, to_lower, trim_space}
use ucware_mail_server.Text.Equality.{clean_again, trim_space-trim_space}
use ucware_mail_server.Sql.{pure, delete_where}
use ucware_mail_server.Sql.Keeps.{
  Keeps, and_then-Keeps, bind-Keeps, pure-Keeps, raise-Keeps, gets-Keeps, modify-Keeps,
}
use ucware_mail_server.Archive.{
  Mailbox, Message, CreateMessageInput, Archive, Sql, statement, has_id, has_name, has_message,
  insert_mailbox, insert_message, new_uuid, mailbox_of, message_of, or_no_rows, create_mailbox,
  list_mailboxes, get_message, delete_message, create_message, list_messages,
}
use ucware_mail_server.Archive.Integrity.Rows.{
  IsValid, insert_mailbox-IsValid, insert_message-IsValid, delete_where-IsValid, drawn,
  drawn-IsValid, mailbox_of-CleanMailbox, message_of-CleanMessage,
}

module _ (sql : Sql) where
  or_no_rows-Keeps : {A : Type 0} (o : Option A) → Keeps (IsValid sql) (or_no_rows o)
  unfolding or_no_rows
  or_no_rows-Keeps none = raise-Keeps _
  or_no_rows-Keeps (some a) = pure-Keeps a

  statement-Keeps : Keeps (IsValid sql) (statement sql)
  unfolding statement
  statement-Keeps = record {
    at = λ a v. elim (Option-cases (sql.fault a.statements)) [
      | inl e ↦
          rw (e, statement)
            (record {
              mailbox_keys = v.mailbox_keys;
              message_keys = v.message_keys;
              mailboxes_clean = v.mailboxes_clean;
              messages_clean = v.messages_clean;
            })
      | inr (why, e) ↦
          rw (e, statement)
            (record {
              mailbox_keys = v.mailbox_keys;
              message_keys = v.message_keys;
              mailboxes_clean = v.mailboxes_clean;
              messages_clean = v.messages_clean;
            })
    ];
  }

  -- Creating a mailbox keeps the archive valid, also when it fails.
  pub create_mailbox-Keeps :
      (now : ℕ) (user_email name : Text)
      → Keeps (IsValid sql) (create_mailbox sql now user_email name)
  unfolding create_mailbox new_uuid
  create_mailbox-Keeps now user_email name = record {
    at = λ a v.
        let mb = mailbox_of (sql.new_id a.ids) now user_email name in
        let valid = drawn-IsValid sql a v in
        elim (Option-cases (sql.fault a.statements)) [
          | inr (why, e) ↦ rw (statement, e) valid
          | inl e ↦
              rw (statement, e)
                (and_then-Keeps {P = IsValid sql} (λ _. pure mb) (insert_mailbox mb (drawn a))
                  (λ _. pure-Keeps mb)
                  (insert_mailbox-IsValid sql mb (drawn a)
                    (mailbox_of-CleanMailbox sql a.ids now user_email name) valid))
        ];
  }

  pub list_mailboxes-Keeps :
      (user_email : Text) → Keeps (IsValid sql) (list_mailboxes sql user_email)
  unfolding list_mailboxes
  list_mailboxes-Keeps user_email = bind-Keeps _ _ statement-Keeps λ _. gets-Keeps _

  pub get_message-Keeps : (id : Text) → Keeps (IsValid sql) (get_message sql id)
  unfolding get_message
  get_message-Keeps id =
      bind-Keeps _ _ statement-Keeps λ _. bind-Keeps _ _ (gets-Keeps _) λ o. or_no_rows-Keeps o

  pub delete_message-Keeps : (id : Text) → Keeps (IsValid sql) (delete_message sql id)
  unfolding delete_message
  delete_message-Keeps id =
      bind-Keeps _ _ statement-Keeps λ _. modify-Keeps _ λ a v. delete_where-IsValid sql _ a v

  pub create_message-Keeps :
      (now : ℕ) (input : CreateMessageInput) → Keeps (IsValid sql) (create_message sql now input)
  unfolding create_message new_uuid
  create_message-Keeps now input = record {
    at = λ a v.
        let m = message_of (sql.new_id a.ids) now input in
        let valid = drawn-IsValid sql a v in
        elim (Option-cases (sql.fault a.statements)) [
          | inr (why, e) ↦ rw (statement, e) valid
          | inl e ↦
              rw (statement, e)
                (and_then-Keeps {P = IsValid sql} (λ _. pure m) (insert_message m (drawn a))
                  (λ _. pure-Keeps m)
                  (insert_message-IsValid sql m (drawn a)
                    (message_of-CleanMessage sql a.ids now input) valid))
        ];
  }

  pub list_messages-Keeps :
      (mailbox_id : Text) (limit : ℕ) → Keeps (IsValid sql) (list_messages sql mailbox_id limit)
  unfolding list_messages
  list_messages-Keeps mailbox_id limit = bind-Keeps _ _ statement-Keeps λ _. gets-Keeps _

  -- Any goroutine's call, in any order; the tables start empty.
  pub data Reach : Archive → Type 0 where
    start : (s i : ℕ) → Reach (record { mailboxes = []; messages = []; statements = s; ids = i })
    creates_mailbox :
        {a : Archive} (now : ℕ) (user_email name : Text)
        → Reach a
        → Reach (create_mailbox sql now user_email name a).1
    lists_mailboxes :
        {a : Archive} (user_email : Text) → Reach a → Reach (list_mailboxes sql user_email a).1
    gets_message : {a : Archive} (id : Text) → Reach a → Reach (get_message sql id a).1
    deletes_message : {a : Archive} (id : Text) → Reach a → Reach (delete_message sql id a).1
    creates_message :
        {a : Archive} (now : ℕ) (input : CreateMessageInput)
        → Reach a
        → Reach (create_message sql now input a).1
    lists_messages :
        {a : Archive} (mailbox_id : Text) (limit : ℕ)
        → Reach a
        → Reach (list_messages sql mailbox_id limit a).1

  -- After any sequence of the archive store's operations on an empty archive, with any statements
  -- failing, the keys hold: mailbox and message identifiers are unique, no user has two mailboxes of
  -- one name, and every message lies in a mailbox of the table. Each identifier is a UUID that the
  -- store has drawn. The user of a mailbox and the direction of a message are in lower case without
  -- space around them, and the name of a mailbox and the mailbox, the addresses and the subject of a
  -- message have no space around them.
  pub Reach-IsValid : {a : Archive} → Reach a → IsValid sql a
  Reach-IsValid (start s i) = record {
    mailbox_keys = tt;
    message_keys = tt;
    mailboxes_clean = tt;
    messages_clean = tt;
  }
  Reach-IsValid (creates_mailbox now u n r) = (create_mailbox-Keeps now u n).at _ (Reach-IsValid r)
  Reach-IsValid (lists_mailboxes u r) = (list_mailboxes-Keeps u).at _ (Reach-IsValid r)
  Reach-IsValid (gets_message id r) = (get_message-Keeps id).at _ (Reach-IsValid r)
  Reach-IsValid (deletes_message id r) = (delete_message-Keeps id).at _ (Reach-IsValid r)
  Reach-IsValid (creates_message now input r) =
      (create_message-Keeps now input).at _ (Reach-IsValid r)
  Reach-IsValid (lists_messages id limit r) = (list_messages-Keeps id limit).at _ (Reach-IsValid r)
