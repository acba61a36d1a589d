-- ===== src/Archive/Reads.antt =====
-- The operations that only read leave both tables as they are, and an operation that meets no fault
-- has its result.
use ucware_mail_server.Base.{ℕ, ◌≡◌, refl, ◌∙◌, inl, inr, none, some, arith, Option-cases, find?}
use ucware_mail_server.Text.{Text, text_eq, trim_space}
use ucware_mail_server.Sql.{delete_where}
use ucware_mail_server.Sql.Keeps.{Keeps}
use ucware_mail_server.Archive.{
  Message, Archive, Sql, statement, list_mailboxes, get_message, delete_message, list_messages,
}

pub record SameTables (a b : Archive) : Type 0 where
  pub same_mailboxes : a.mailboxes ≡ b.mailboxes
  pub same_messages : a.messages ≡ b.messages

pub same_trans : {a b c : Archive} → SameTables a b → SameTables b c → SameTables a c
same_trans p q = record {
  same_mailboxes = p.same_mailboxes ∙ q.same_mailboxes;
  same_messages = p.same_messages ∙ q.same_messages;
}

pub same_refl : (a : Archive) → SameTables a a
same_refl a = record { same_mailboxes = refl; same_messages = refl }

module _ (sql : Sql) where
  pub list_mailboxes-SameTables :
      (user_email : Text) (a : Archive) → SameTables (list_mailboxes sql user_email a).1 a
  unfolding list_mailboxes
  list_mailboxes-SameTables user_email a = elim (Option-cases (sql.fault a.statements)) [
    | inl e ↦ record { same_mailboxes = rw (e, statement); same_messages = rw (e, statement) }
    | inr (why, e) ↦ record {
      same_mailboxes = rw (e, statement);
      same_messages = rw (e, statement);
    }
  ]

  pub list_messages-SameTables :
      (id : Text) (limit : ℕ) (a : Archive) → SameTables (list_messages sql id limit a).1 a
  unfolding list_messages
  list_messages-SameTables id limit a = elim (Option-cases (sql.fault a.statements)) [
    | inl e ↦ record { same_mailboxes = rw (e, statement); same_messages = rw (e, statement) }
    | inr (why, e) ↦ record {
      same_mailboxes = rw (e, statement);
      same_messages = rw (e, statement);
    }
  ]

  pub get_message-SameTables : (id : Text) (a : Archive) → SameTables (get_message sql id a).1 a
  unfolding get_message
  get_message-SameTables id a = elim (Option-cases (sql.fault a.statements)) [
    | inl e ↦
        elim (Option-cases (find? (λ (m : Message). text_eq m.id (trim_space id)) a.messages)) [
          | inl f ↦ record { same_mailboxes = ground arith; same_messages = ground arith }
          | inr (m, f) ↦ record { same_mailboxes = ground arith; same_messages = ground arith }
        ]
    | inr (why, e) ↦ record {
      same_mailboxes = rw (e, statement);
      same_messages = rw (e, statement);
    }
  ]

  -- The same as an invariant of chains: the tables are still those of `a`.
  pub list_mailboxes-Fixed :
      (a : Archive) (user_email : Text)
      → Keeps (λ b. SameTables b a) (list_mailboxes sql user_email)
  list_mailboxes-Fixed a user_email = record {
    at = λ b h. same_trans (list_mailboxes-SameTables user_email b) h;
  }

  pub list_messages-Fixed :
      (a : Archive) (id : Text) (limit : ℕ)
      → Keeps (λ b. SameTables b a) (list_messages sql id limit)
  list_messages-Fixed a id limit = record {
    at = λ b h. same_trans (list_messages-SameTables id limit b) h;
  }

  -- A deletion with its effect, or with none.
  pub delete_message-messages :
      (id : Text) (a : Archive)
      → sql.fault a.statements ≡ none
      → (delete_message sql id a).1.messages
        ≡ delete_where (λ m. text_eq m.id (trim_space id)) a.messages
  unfolding delete_message
  delete_message-messages id a e = rw (e, statement)

  pub delete_message_fault :
      (id : Text) (a : Archive) {why : Text}
      → sql.fault a.statements ≡ some why
      → (delete_message sql id a).1.messages ≡ a.messages
  unfolding delete_message
  delete_message_fault id a e = rw (e, statement)
