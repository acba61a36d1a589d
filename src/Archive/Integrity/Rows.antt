-- ===== src/Archive/Integrity/Rows.antt =====
-- The rows of a valid archive of cmd/mail-admin/app/internal/archive/sqlstore.go, and the single
-- changes that keep it valid.
use ucware_mail_server.Base.{
  ℕ, ◌+◌, ◌<◌, ◌≡◌, refl, inl, inr, Bool, true, false, not, ◌||◌, List, [], ◌∷◌, arith, filter,
  Bool-cases,
}
use ucware_mail_server.Text.{Text, to_lower, trim_space}
use ucware_mail_server.Text.Equality.{clean_again, trim_space-trim_space}
use ucware_mail_server.Sql.{delete_where}
use ucware_mail_server.Archive.{
  Mailbox, Message, CreateMessageInput, Archive, Sql, has_id, has_name, has_message, insert_mailbox,
  insert_message, mailbox_of, message_of,
}

abbrev pub MailboxKeys : List Mailbox → Type 0
MailboxKeys [] = Unit {0}
MailboxKeys (b ∷ bs) =
    (has_id b.id bs ≡ false) × (has_name b.user_email b.name bs ≡ false) × MailboxKeys bs

abbrev pub MessageKeys : List Mailbox → List Message → Type 0
MessageKeys bs [] = Unit {0}
MessageKeys bs (m ∷ ms) =
    (has_message m.id ms ≡ false) × (has_id m.mailbox_id bs ≡ true) × MessageKeys bs ms

-- Every row of a table.
abbrev pub Each {ℓ κ} : {A : Type ℓ} → (A → Type κ) → List A → Type κ
Each P [] = Unit
Each P (x ∷ xs) = P x × Each P xs

Each-map {ℓ κ} :
    {A : Type ℓ} (P Q : A → Type κ) (xs : List A) → ((x : A) → P x → Q x) → Each P xs → Each Q xs
Each-map P Q [] f h = tt
Each-map P Q (x ∷ xs) f (h, hs) = (f x h, Each-map P Q xs f hs)

Each-filter {ℓ κ} :
    {A : Type ℓ} (P : A → Type κ) (p : A → Bool) (xs : List A) → Each P xs → Each P (filter p xs)
Each-filter P p [] h = tt
Each-filter P p (x ∷ xs) (h, hs) = elim (Bool-cases (p x)) [
  | inl keep ↦ rw keep (h, Each-filter P p xs hs)
  | inr drop ↦ rw drop (Each-filter P p xs hs)
]

-- One of the first `n` UUIDs.
abbrev pub Drawn : Sql → ℕ → Text → Type 0
Drawn sql n id = (i : ℕ) × (i < n) × (id ≡ sql.new_id i)

-- The identifier is a UUID that the store has drawn, and the texts are trimmed.
pub record CleanMailbox (sql : Sql) (n : ℕ) (b : Mailbox) : Type 0 where
  pub id : Drawn sql n b.id
  pub user_email : to_lower (trim_space b.user_email) ≡ b.user_email
  pub name : trim_space b.name ≡ b.name

pub record CleanMessage (sql : Sql) (n : ℕ) (m : Message) : Type 0 where
  pub id : Drawn sql n m.id
  pub mailbox_id : trim_space m.mailbox_id ≡ m.mailbox_id
  pub direction : to_lower (trim_space m.direction) ≡ m.direction
  pub from_addr : trim_space m.from_addr ≡ m.from_addr
  pub to_addr : trim_space m.to_addr ≡ m.to_addr
  pub subject : trim_space m.subject ≡ m.subject

pub record IsValid (sql : Sql) (a : Archive) : Type 0 where
  pub mailbox_keys : MailboxKeys a.mailboxes
  pub message_keys : MessageKeys a.mailboxes a.messages
  pub mailboxes_clean : Each (CleanMailbox sql a.ids) a.mailboxes
  pub messages_clean : Each (CleanMessage sql a.ids) a.messages

MessageKeys-cons :
    (b : Mailbox) (bs : List Mailbox) (ms : List Message)
    → MessageKeys bs ms
    → MessageKeys (b ∷ bs) ms
MessageKeys-cons b bs [] k = tt
MessageKeys-cons b bs (m ∷ ms) (u, f, k) = (u, ground arith, MessageKeys-cons b bs ms k)

has_message-filter :
    (p : Message → Bool) (id : Text) (ms : List Message)
    → has_message id ms ≡ false
    → has_message id (filter p ms) ≡ false
has_message-filter p id [] h = refl
has_message-filter p id (m ∷ ms) h = ground (arith, has_message-filter p id ms)

MessageKeys-filter :
    (p : Message → Bool) (bs : List Mailbox) (ms : List Message)
    → MessageKeys bs ms
    → MessageKeys bs (filter p ms)
MessageKeys-filter p bs [] k = tt
MessageKeys-filter p bs (m ∷ ms) (u, f, k) = elim (Bool-cases (p m)) [
  | inl keep ↦ rw keep (has_message-filter p m.id ms u, f, MessageKeys-filter p bs ms k)
  | inr drop ↦ rw drop (MessageKeys-filter p bs ms k)
]

-- After the draw of a UUID and a statement.
abbrev pub drawn : Archive → Archive
drawn a = record a { statements = a.statements + 1; ids = a.ids + 1 }

module _ (sql : Sql) where
  pub insert_mailbox-IsValid :
      (b : Mailbox) (a : Archive)
      → CleanMailbox sql a.ids b
      → IsValid sql a
      → IsValid sql (insert_mailbox b a).1
  unfolding insert_mailbox
  insert_mailbox-IsValid b a clean v =
      elim (Bool-cases (has_id b.id a.mailboxes || has_name b.user_email b.name a.mailboxes)) [
        | inl taken ↦ rw taken v
        | inr free ↦ rw free (record {
          mailbox_keys = (ground arith, ground arith, v.mailbox_keys);
          message_keys = MessageKeys-cons b a.mailboxes a.messages v.message_keys;
          mailboxes_clean = (clean, v.mailboxes_clean);
          messages_clean = v.messages_clean;
        })
      ]

  pub insert_message-IsValid :
      (m : Message) (a : Archive)
      → CleanMessage sql a.ids m
      → IsValid sql a
      → IsValid sql (insert_message m a).1
  unfolding insert_message
  insert_message-IsValid m a clean v =
      elim (Bool-cases (has_message m.id a.messages || not (has_id m.mailbox_id a.mailboxes))) [
        | inl bad ↦ rw bad v
        | inr good ↦ rw good (record {
          mailbox_keys = v.mailbox_keys;
          message_keys = (ground arith, ground arith, v.message_keys);
          mailboxes_clean = v.mailboxes_clean;
          messages_clean = (clean, v.messages_clean);
        })
      ]

  pub delete_where-IsValid :
      (p : Message → Bool) (a : Archive)
      → IsValid sql a
      → IsValid sql (record a { messages = delete_where p a.messages })
  delete_where-IsValid p a v = record {
    mailbox_keys = v.mailbox_keys;
    message_keys = MessageKeys-filter _ a.mailboxes a.messages v.message_keys;
    mailboxes_clean = v.mailboxes_clean;
    messages_clean = Each-filter (CleanMessage sql a.ids) _ a.messages v.messages_clean;
  }

  later_mailbox : (n : ℕ) (b : Mailbox) → CleanMailbox sql n b → CleanMailbox sql (n + 1) b
  later_mailbox n b c = record {
    id = (c.id.0, omega (arith, c.id.1), c.id.2);
    user_email = c.user_email;
    name = c.name;
  }

  later_message : (n : ℕ) (m : Message) → CleanMessage sql n m → CleanMessage sql (n + 1) m
  later_message n m c = record {
    id = (c.id.0, omega (arith, c.id.1), c.id.2);
    mailbox_id = c.mailbox_id;
    direction = c.direction;
    from_addr = c.from_addr;
    to_addr = c.to_addr;
    subject = c.subject;
  }

  pub drawn-IsValid : (a : Archive) → IsValid sql a → IsValid sql (drawn a)
  drawn-IsValid a v = record {
    mailbox_keys = v.mailbox_keys;
    message_keys = v.message_keys;
    mailboxes_clean =
        Each-map (CleanMailbox sql a.ids) (CleanMailbox sql (a.ids + 1)) a.mailboxes
          (later_mailbox a.ids) v.mailboxes_clean;
    messages_clean =
        Each-map (CleanMessage sql a.ids) (CleanMessage sql (a.ids + 1)) a.messages
          (later_message a.ids) v.messages_clean;
  }

  pub mailbox_of-CleanMailbox :
      (n now : ℕ) (user_email name : Text)
      → CleanMailbox sql (n + 1) (mailbox_of (sql.new_id n) now user_email name)
  mailbox_of-CleanMailbox n now user_email name = record {
    id = (n, omega arith, refl);
    user_email = clean_again user_email;
    name = trim_space-trim_space name;
  }

  pub message_of-CleanMessage :
      (n now : ℕ) (input : CreateMessageInput)
      → CleanMessage sql (n + 1) (message_of (sql.new_id n) now input)
  message_of-CleanMessage n now input = record {
    id = (n, omega arith, refl);
    mailbox_id = trim_space-trim_space input.mailbox_id;
    direction = clean_again input.direction;
    from_addr = trim_space-trim_space input.from_addr;
    to_addr = trim_space-trim_space input.to_addr;
    subject = trim_space-trim_space input.subject;
  }
