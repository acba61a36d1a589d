-- ===== src/Lmtp/Delivery/Stored.antt =====
-- What a delivery leaves in the archive: one message, or the messages as they were.
use ucware_mail_server.Base.{ℕ, ◌≡◌, refl, ◌∙◌, Option, none, some, List, ◌∷◌, length}
use ucware_mail_server.Text.{Text, codes, to_lower, trim_space}
use ucware_mail_server.Sql.{Error, Result, ok, err, Exec, pure, gets, and_then, ◌>>=◌}
use ucware_mail_server.Sql.Keeps.{Keeps, bind-Keeps, pure-Keeps, raise-Keeps}
use ucware_mail_server.Archive.{
  Mailbox, Message, CreateMessageInput, Archive, message_of, create_mailbox, create_message,
  list_mailboxes,
}
use ucware_mail_server.Archive.Reads.{list_mailboxes-SameTables}
use ucware_mail_server.Archive.Writes.{create_mailbox-messages, Creates, create_message-Creates}
use ucware_mail_server.Lmtp.Delivery.{
  Env, catch, recover, named, or_raise, look_again, create, or_create, find_or_create_mailbox,
  deliver_one,
}

-- The message table is still `ms`.
abbrev pub Holds : List Message → Archive → Type 0
Holds ms a = a.messages ≡ ms

pub catch-Keeps :
    {S A : Type 0} {P : S → Type 0} (m : Exec S A) (f : Error → Exec S A)
    → Keeps P m
    → ((e : Error) → Keeps P (f e))
    → Keeps P (catch m f)
catch-Keeps {S} {A} {P} m f h g = record { at = λ s p. after (m s) (h.at s p) }
  where
    after : (r : Result A × S) → P r.1 → P (recover f r).1
    after (ok a, s) p = p
    after (err e, s) p = (g e).at s p

or_raise-Keeps : (ms : List Message) (e : Error) (o : Option Text) → Keeps (Holds ms) (or_raise e o)
unfolding or_raise
or_raise-Keeps ms e none = raise-Keeps e
or_raise-Keeps ms e (some id) = pure-Keeps id

-- The row of a delivery, and that the table has it first; or an error and no change.
abbrev pub Delivers : Text → Text → Text → Archive → Result (Unit {0}) × Archive → Type 0
Delivers from raw rcpt a (ok _, b) =
    (m : Message) × (b.messages ≡ m ∷ a.messages)
    × (m.direction ≡ codes "inbound")
    × (m.to_addr ≡ trim_space rcpt)
    × (m.from_addr ≡ trim_space from)
    × (m.raw_mime ≡ raw)
    × (m.size_bytes ≡ length raw)
Delivers from raw rcpt a (err e, b) = b.messages ≡ a.messages

inbound_direction : to_lower (trim_space (codes "inbound")) ≡ codes "inbound"
unfolding to_lower trim_space
inbound_direction = refl

module _ (env : Env) where
  list_mailboxes-Keeps :
      (ms : List Message) (u : Text) → Keeps (Holds ms) (list_mailboxes env.sql u)
  list_mailboxes-Keeps ms u = record {
    at = λ a h. (list_mailboxes-SameTables env.sql u a).same_messages ∙ h;
  }

  look_again-Keeps :
      (ms : List Message) (u name : Text) (e : Error) → Keeps (Holds ms) (look_again env u name e)
  unfolding look_again
  look_again-Keeps ms u name e =
      bind-Keeps _ _ (catch-Keeps _ _ (list_mailboxes-Keeps ms u) (λ _. raise-Keeps e))
        λ boxes. or_raise-Keeps ms e (named name boxes)

  create_mailbox-Keeps :
      (ms : List Message) (now : ℕ) (u name : Text)
      → Keeps (Holds ms) (create_mailbox env.sql now u name)
  create_mailbox-Keeps ms now u name = record {
    at = λ a h. create_mailbox-messages env.sql now u name a ∙ h;
  }

  create-Keeps : (ms : List Message) (u name : Text) → Keeps (Holds ms) (create env u name)
  unfolding create
  create-Keeps ms u name = record {
    at = λ a h.
        (bind-Keeps _ _ (create_mailbox-Keeps ms (env.clock a.ids) u name)
            (λ (box : Mailbox). pure-Keeps box.id)).at
          a h;
  }

  or_create-Keeps :
      (ms : List Message) (u name : Text) (o : Option Text)
      → Keeps (Holds ms) (or_create env u name o)
  unfolding or_create
  or_create-Keeps ms u name (some id) = pure-Keeps id
  or_create-Keeps ms u name none =
      catch-Keeps _ _ (create-Keeps ms u name) (look_again-Keeps ms u name)

  pub find_or_create_mailbox-Keeps :
      (ms : List Message) (u name : Text)
      → Keeps (λ a. a.messages ≡ ms) (find_or_create_mailbox env u name)
  unfolding find_or_create_mailbox
  find_or_create_mailbox-Keeps ms u name =
      bind-Keeps _ _ (list_mailboxes-Keeps ms u)
        λ boxes. or_create-Keeps ms u name (named name boxes)

  abbrev pub input_of : Text → Text → Text → ℕ → Text → CreateMessageInput
  input_of from raw rcpt received_at id = record {
    mailbox_id = id;
    direction = codes "inbound";
    from_addr = from;
    to_addr = rcpt;
    subject = (env.parse_mime raw).0;
    raw_mime = raw;
    text_body = (env.parse_mime raw).1;
    size_bytes = length raw;
    received_at = received_at;
  }

  created-Delivers :
      (from raw rcpt : Text) (received_at : ℕ) (id uuid : Text) (now : ℕ) (a b : Archive)
      (r : Result Message × Archive)
      → b.messages ≡ a.messages
      → Creates (message_of uuid now (input_of from raw rcpt received_at id)) b r
      → Delivers from raw rcpt a (and_then r (λ _. pure tt))
  created-Delivers from raw rcpt received_at id uuid now a b (ok n, c) h (e, f) = (
    message_of uuid now (input_of from raw rcpt received_at id),
    rw (← h) f,
    inbound_direction,
    refl,
    refl,
    refl,
    refl,
  )
  created-Delivers from raw rcpt received_at id uuid now a b (err e, c) h f = f ∙ h

  found-Delivers :
      (from raw rcpt : Text) (received_at : ℕ) (a : Archive) (r : Result Text × Archive)
      → r.1.messages ≡ a.messages
      → Delivers from raw rcpt a (
          and_then r (λ id. do
            n ← gets (λ b. b.ids)
            _ ← create_message env.sql (env.clock n) (input_of from raw rcpt received_at id)
            pure tt))
  found-Delivers from raw rcpt received_at a (err e, b) h = h
  found-Delivers from raw rcpt received_at a (ok id, b) h =
      created-Delivers from raw rcpt received_at id (env.sql.new_id b.ids) (env.clock b.ids) a b _ h
        (create_message-Creates env.sql (env.clock b.ids) (input_of from raw rcpt received_at id) b)

  -- A delivery that succeeds adds one inbound message to the archive, with the sender, the
  -- recipient, the bytes and their number; one that fails leaves the messages as they were.
  pub deliver_one-Delivers :
      (from raw rcpt : Text) (received_at : ℕ) (a : Archive)
      → Delivers from raw rcpt a (deliver_one env from raw rcpt received_at a)
  unfolding deliver_one
  deliver_one-Delivers from raw rcpt received_at a =
      found-Delivers from raw rcpt received_at a (find_or_create_mailbox env rcpt env.inbound a)
        ((find_or_create_mailbox-Keeps a.messages rcpt env.inbound).at a refl)
