-- ===== src/Archive.antt =====
-- cmd/mail-admin/app/internal/archive/sqlstore.go: mailboxes and messages in a SQL database. The
-- tables are lists of rows, with the keys that the DDL of `init` declares. The database's own
-- choices are the record `Sql`: which statement fails, the UUIDs, and the order of equal sort keys.
pub mod Rebind
pub mod Integrity
pub mod Reads
pub mod Writes
pub mod Faultless
mod Tests
use ucware_mail_server.Base.{
  ℕ, ◌+◌, Bool, true, false, not, ◌&&◌, ◌||◌, Option, none, some, List, [], ◌∷◌, ltb, leb, ◌==◌,
  if◌then◌else◌, filter, find?, take,
}
use ucware_mail_server.Text.{Text, codes, text_eq, is_empty, to_lower, trim_space}
use ucware_mail_server.Sql.{
  Error, no_rows, failed, Result, ok, err, Exec, pure, raise, gets, modify, ◌>>=◌, ◌>>◌,
  delete_where,
}

pub record Mailbox : Type 0 where
  pub id : Text
  pub user_email : Text
  pub name : Text
  pub created_at : ℕ

pub record CreateMessageInput : Type 0 where
  pub mailbox_id : Text
  pub direction : Text
  pub from_addr : Text
  pub to_addr : Text
  pub subject : Text
  pub raw_mime : Text
  pub text_body : Text
  pub size_bytes : ℕ
  pub received_at : ℕ

pub record Message : Type 0 where
  pub id : Text
  pub mailbox_id : Text
  pub direction : Text
  pub from_addr : Text
  pub to_addr : Text
  pub subject : Text
  pub raw_mime : Text
  pub text_body : Text
  pub size_bytes : ℕ
  pub received_at : ℕ
  pub created_at : ℕ

-- `statements` and `ids` count the statements executed and the UUIDs drawn so far.
pub record Archive : Type 0 where
  pub mailboxes : List Mailbox
  pub messages : List Message
  pub statements : ℕ
  pub ids : ℕ

pub record Sql : Type 0 where
  pub fault : ℕ → Option Text
  pub new_id : ℕ → Text
  pub order_mailboxes : List Mailbox → List Mailbox
  pub order_messages : List Message → List Message

-- One statement: the error of the database, if it has one for this statement.
unfoldable pub statement : Sql → Exec Archive (Unit {0})
statement sql a = elim (sql.fault a.statements) [
  | none ↦ (ok tt, record a { statements = a.statements + 1 })
  | some why ↦ (err (failed why), record a { statements = a.statements + 1 })
]

new_uuid : Sql → Exec Archive Text
new_uuid sql a = (ok (sql.new_id a.ids), record a { ids = a.ids + 1 })

abbrev pub has_id : Text → List Mailbox → Bool
has_id id [] = false
has_id id (b ∷ bs) = text_eq b.id id || has_id id bs

abbrev pub has_name : Text → Text → List Mailbox → Bool
has_name user name [] = false
has_name user name (b ∷ bs) =
    (text_eq b.user_email user && text_eq b.name name) || has_name user name bs

abbrev pub has_message : Text → List Message → Bool
has_message id [] = false
has_message id (m ∷ ms) = text_eq m.id id || has_message id ms

abbrev constraint : Error
constraint = failed (codes "constraint violation")

-- The primary key and the unique index on (user_email, name).
pub insert_mailbox : Mailbox → Exec Archive (Unit {0})
insert_mailbox b a =
    if has_id b.id a.mailboxes || has_name b.user_email b.name a.mailboxes
    then (err constraint, a)
    else (ok tt, record a { mailboxes = b ∷ a.mailboxes })

-- The primary key and the foreign key to the mailbox.
pub insert_message : Message → Exec Archive (Unit {0})
insert_message m a =
    if has_message m.id a.messages || not (has_id m.mailbox_id a.mailboxes)
    then (err constraint, a)
    else (ok tt, record a { messages = m ∷ a.messages })

abbrev pub mailbox_of : Text → ℕ → Text → Text → Mailbox
mailbox_of id now user_email name = record {
  id = id;
  user_email = to_lower (trim_space user_email);
  name = trim_space name;
  created_at = now;
}

unfoldable pub create_mailbox : Sql → ℕ → Text → Text → Exec Archive Mailbox
unfolding statement new_uuid insert_mailbox
create_mailbox sql now user_email name = do
  id ← new_uuid sql
  let mb = mailbox_of id now user_email name
  statement sql
  insert_mailbox mb
  pure mb

abbrev pub mailboxes_of : Text → List Mailbox → List Mailbox
mailboxes_of user_email bs =
    if is_empty (trim_space user_email)
    then bs
    else filter (λ b. text_eq b.user_email (to_lower (trim_space user_email))) bs

unfoldable pub list_mailboxes : Sql → Text → Exec Archive (List Mailbox)
unfolding statement
list_mailboxes sql user_email = do
  statement sql
  gets (λ a. sql.order_mailboxes (mailboxes_of user_email a.mailboxes))

or_no_rows : {A : Type 0} → Option A → Exec Archive A
or_no_rows none = raise no_rows
or_no_rows (some a) = pure a

unfoldable pub get_message : Sql → Text → Exec Archive Message
unfolding statement or_no_rows
get_message sql id = do
  statement sql
  found ← gets (λ a. find? (λ m. text_eq m.id (trim_space id)) a.messages)
  or_no_rows found

unfoldable pub delete_message : Sql → Text → Exec Archive (Unit {0})
unfolding statement
delete_message sql id = do
  statement sql
  modify (λ a. record a { messages = delete_where (λ m. text_eq m.id (trim_space id)) a.messages })

abbrev pub message_of : Text → ℕ → CreateMessageInput → Message
message_of id now input = record {
  id = id;
  mailbox_id = trim_space input.mailbox_id;
  direction = to_lower (trim_space input.direction);
  from_addr = trim_space input.from_addr;
  to_addr = trim_space input.to_addr;
  subject = trim_space input.subject;
  raw_mime = input.raw_mime;
  text_body = input.text_body;
  size_bytes = input.size_bytes;
  received_at = input.received_at;
  created_at = now;
}

unfoldable pub create_message : Sql → ℕ → CreateMessageInput → Exec Archive Message
unfolding statement new_uuid insert_message
create_message sql now input = do
  id ← new_uuid sql
  let m = message_of id now input
  statement sql
  insert_message m
  pure m

abbrev pub clamp_limit : ℕ → ℕ
clamp_limit limit =
    let limit' = if ltb limit 1 then 100 else limit in if ltb 1000 limit' then 1000 else limit'

unfoldable pub list_messages : Sql → Text → ℕ → Exec Archive (List Message)
unfolding statement
list_messages sql mailbox_id limit = do
  statement sql
  gets (λ a.
      take (clamp_limit limit) (
        sql.order_messages (filter (λ m. text_eq m.mailbox_id (trim_space mailbox_id)) a.messages)))
