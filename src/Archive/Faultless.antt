-- ===== src/Archive/Faultless.antt =====
-- What the operations do where the database has no fault.
use ucware_mail_server.Base.{
  ℕ, ◌+◌, ◌≡◌, inl, inr, refl, none, true, not, ◌||◌, ◌∷◌, arith, filter, take, Bool-cases,
}
use ucware_mail_server.Text.{Text, text_eq, trim_space}
use ucware_mail_server.Sql.{Result, ok, err}
use ucware_mail_server.Archive.{
  Mailbox, Message, CreateMessageInput, Archive, Sql, statement, has_id, has_name, has_message,
  insert_mailbox, insert_message, mailbox_of, mailboxes_of, message_of, clamp_limit, list_mailboxes,
  create_mailbox, create_message, list_messages,
}

-- A mailbox more, or an error and the mailboxes as they were.
abbrev pub Boxes : Mailbox → Archive → Result Mailbox × Archive → Type 0
Boxes mb a (ok b, d) = (b ≡ mb) × (d.mailboxes ≡ mb ∷ a.mailboxes)
Boxes mb a (err e, d) = d.mailboxes ≡ a.mailboxes

-- A message more, in a mailbox that exists.
abbrev pub Inserts : Message → Archive → Result Message × Archive → Type 0
Inserts m a (ok n, d) =
    (d.messages ≡ m ∷ a.messages)
    × (d.mailboxes ≡ a.mailboxes)
    × (has_id m.mailbox_id a.mailboxes ≡ true)
Inserts m a (err e, d) = Unit

module _ (sql : Sql) (a : Archive) (sound : sql.fault a.statements ≡ none) where
  pub list_mailboxes_sound :
      (user : Text)
      → list_mailboxes sql user a ≡ (
        ok (sql.order_mailboxes (mailboxes_of user a.mailboxes)),
        record a { statements = a.statements + 1 },
      )
  unfolding list_mailboxes
  list_mailboxes_sound user = rw (sound, statement) refl

  pub list_messages_sound :
      (id : Text) (limit : ℕ)
      → list_messages sql id limit a ≡ (
        ok (
            take
              (clamp_limit limit)
              (sql.order_messages (filter (λ m. text_eq m.mailbox_id (trim_space id)) a.messages))),
        record a { statements = a.statements + 1 },
      )
  unfolding list_messages
  list_messages_sound id limit = rw (sound, statement) refl

  pub create_mailbox-Boxes :
      (now : ℕ) (user name : Text)
      → Boxes (mailbox_of (sql.new_id a.ids) now user name) a (create_mailbox sql now user name a)
  unfolding create_mailbox
  create_mailbox-Boxes now user name =
      let mb = mailbox_of (sql.new_id a.ids) now user name in
      elim (Bool-cases (has_id mb.id a.mailboxes || has_name mb.user_email mb.name a.mailboxes)) [
        | inl bad ↦ rw (sound, statement, bad, insert_mailbox) refl
        | inr good ↦ rw (sound, statement, good, insert_mailbox) (refl, refl)
      ]

  pub create_message-Inserts :
      (now : ℕ) (input : CreateMessageInput)
      → Inserts (message_of (sql.new_id a.ids) now input) a (create_message sql now input a)
  unfolding create_message
  create_message-Inserts now input =
      let m = message_of (sql.new_id a.ids) now input in
      elim (Bool-cases (has_message m.id a.messages || not (has_id m.mailbox_id a.mailboxes))) [
        | inl bad ↦ rw (sound, statement, bad, insert_message) tt
        | inr good ↦ rw (sound, statement, good, insert_message) (refl, refl, ground (arith, good))
      ]
