-- ===== src/Archive/Writes.antt =====
-- What the two operations that insert a row do to the message table.
use ucware_mail_server.Base.{
  ℕ, ◌≡◌, refl, inl, inr, not, ◌||◌, ◌∷◌, arith, Bool-cases, Option-cases,
}
use ucware_mail_server.Text.{Text}
use ucware_mail_server.Sql.{Result, ok, err}
use ucware_mail_server.Archive.{
  Message, CreateMessageInput, Archive, Sql, statement, insert_message, message_of, has_id,
  has_message, create_mailbox, create_message,
}

-- A new first row `m`, or an error and no change.
abbrev pub Creates : Message → Archive → Result Message × Archive → Type 0
Creates m a (ok n, b) = (n ≡ m) × (b.messages ≡ m ∷ a.messages)
Creates m a (err e, b) = b.messages ≡ a.messages

module _ (sql : Sql) where
  pub create_mailbox-messages :
      (now : ℕ) (u name : Text) (a : Archive)
      → (create_mailbox sql now u name a).1.messages ≡ a.messages
  unfolding create_mailbox
  create_mailbox-messages now u name a = elim (Option-cases (sql.fault a.statements)) [
    | inl e ↦ rw (e, statement) (ground arith)
    | inr (why, e) ↦ rw (e, statement)
  ]

  pub create_message-Creates :
      (now : ℕ) (input : CreateMessageInput) (a : Archive)
      → Creates (message_of (sql.new_id a.ids) now input) a (create_message sql now input a)
  unfolding create_message
  create_message-Creates now input a = elim (Option-cases (sql.fault a.statements)) [
    | inl e ↦
        let m = message_of (sql.new_id a.ids) now input in
        elim (Bool-cases (has_message m.id a.messages || not (has_id m.mailbox_id a.mailboxes))) [
          | inl bad ↦ rw (e, statement, bad, insert_message) refl
          | inr good ↦ rw (e, statement, good, insert_message) (refl, refl)
        ]
    | inr (why, e) ↦ rw (e, statement) refl
  ]
