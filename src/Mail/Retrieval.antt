-- ===== src/Mail/Retrieval.antt =====
-- What LMTP has accepted, POP3 shows.
use ucware_mail_server.Base.{
  ℕ, ◌+◌, ◌≤◌, ◌≡◌, inl, inr, refl, ap, ◌∙◌, sym, Bool, true, false, Option, none, List, [], ◌∷◌,
  map, length, filter, arith, Option-cases,
}
use ucware_mail_server.Text.{Text, text_eq, equal_fold, to_lower, trim_space}
use ucware_mail_server.Text.Equality.{text_eq_self}
use ucware_mail_server.Sql.{Error, Result, ok, err, pure, gets, and_then, ◌>>=◌}
use ucware_mail_server.Archive.{
  Mailbox, Message, Archive, mailboxes_of, mailbox_of, message_of, has_id, create_message,
}
use ucware_mail_server.Archive.Faultless.{
  Boxes, Inserts, list_mailboxes_sound, list_messages_sound, create_mailbox-Boxes,
  create_message-Inserts,
}
use ucware_mail_server.Lmtp.Delivery as Lmtp
use ucware_mail_server.Lmtp.Delivery.{
  catch, recover, named, or_raise, look_again, create, or_create, find_or_create_mailbox,
  deliver_one,
}
use ucware_mail_server.Lmtp.Delivery.Stored.{input_of, find_or_create_mailbox-Keeps}
use ucware_mail_server.Pop3.Maildrop.{Msg}
use ucware_mail_server.Pop3.Session as Pop3
use ucware_mail_server.Pop3.Session.{inbox_id, load_messages, load_mailbox, msg_of}
use ucware_mail_server.Mail.Inbox.{
  In, In-map, Reorders, inbox_id-named, inbox_id_new, mailboxes_of_new, take_all,
}

-- The database has no fault and orders rows as SQL does, and the name of the inbox has no space
-- around it.
pub record Sound (env : Lmtp.Env) : Type 0 where
  pub no_fault : (n : ℕ) → env.sql.fault n ≡ none
  pub mailboxes : Reorders env.sql.order_mailboxes
  pub messages : Reorders env.sql.order_messages
  pub trimmed : trim_space env.inbound ≡ env.inbound

-- A POP3 server on the same archive and with the same inbox.
abbrev pub pop3_of : Lmtp.Env → (ℕ → Option Text) → (Text → Text → Bool) → Pop3.Env
pop3_of env fault bcrypt_ok = record {
  fault = fault;
  sql = env.sql;
  bcrypt_ok = bcrypt_ok;
  inbound = env.inbound;
}

-- A maildrop, with the message in it.
abbrev pub Shown : Message → Result (List Msg) → Type 0
Shown m (ok ms) = In (msg_of m) ms
Shown m (err e) = ⊥

module _ (env : Lmtp.Env) (sound : Sound env) (user : Text) where
  -- The id of the inbox, as POP3 looks it up.
  abbrev pub inbox : Archive → Text
  unfolding inbox_id
  inbox a = inbox_id env.inbound (env.sql.order_mailboxes (mailboxes_of user a.mailboxes))

  abbrev Found : Result Text × Archive → Type 0
  Found (ok id, a) = inbox a ≡ id
  Found (err e, a) = Unit

  same_name : equal_fold (trim_space env.inbound) env.inbound ≡ true
  unfolding equal_fold
  same_name = rw (sound.trimmed) (text_eq_self (to_lower env.inbound))

  again-Found :
      (a d : Archive) (e : Error)
      → d.mailboxes ≡ a.mailboxes
      → named env.inbound (env.sql.order_mailboxes (mailboxes_of user a.mailboxes)) ≡ none
      → Found (look_again env user env.inbound e d)
  unfolding look_again or_raise
  again-Found a d e same h =
      rw (list_mailboxes_sound env.sql d (sound.no_fault d.statements) user, same, h) tt

  created-Found :
      (a : Archive) (id : Text) (now : ℕ) (r : Result Mailbox × Archive)
      → named env.inbound (env.sql.order_mailboxes (mailboxes_of user a.mailboxes)) ≡ none
      → Boxes (mailbox_of id now user env.inbound) a r
      → Found (recover (look_again env user env.inbound) (and_then r (λ b. pure b.id)))
  unfolding inbox
  created-Found a id now (ok b, d) h (same, more) =
      let mb = mailbox_of id now user env.inbound in
      let here : inbox d ≡ mb.id =
        rw (more, mailboxes_of_new id now user env.inbound a.mailboxes)
          (inbox_id_new env.inbound env.sql.order_mailboxes sound.mailboxes mb
            (mailboxes_of user a.mailboxes) same_name h) in
      here ∙ ap (λ (m : Mailbox). m.id) (sym same)
  created-Found a id now (err e, d) h same = again-Found a d e same h

  find_or_create_mailbox-Found :
      (a : Archive) → Found (find_or_create_mailbox env user env.inbound a)
  unfolding find_or_create_mailbox or_create create inbox inbox_id
  find_or_create_mailbox-Found a =
      let a' = record a { statements = a.statements + 1 } in
      elim (Option-cases
        (named env.inbound (env.sql.order_mailboxes (mailboxes_of user a.mailboxes)))) [
          | inr (id, h) ↦
              rw (list_mailboxes_sound env.sql a (sound.no_fault a.statements) user, h)
                (inbox_id-named env.inbound _ id h)
          | inl h ↦
              rw (list_mailboxes_sound env.sql a (sound.no_fault a.statements) user, h)
                (created-Found a' (env.sql.new_id a.ids) (env.clock a.ids) _ h (
                  create_mailbox-Boxes env.sql a' (sound.no_fault a'.statements) (env.clock a.ids)
                    user env.inbound))
        ]

  -- The row of the message, in the inbox that POP3 will open.
  abbrev Placed : Text → Archive → Result (Unit {0}) × Archive → Type 0
  unfolding inbox
  Placed raw a (ok _, b) =
      (m : Message) × (b.messages ≡ m ∷ a.messages)
      × (m.raw_mime ≡ raw)
      × (m.mailbox_id ≡ trim_space (inbox b))
      × (has_id m.mailbox_id b.mailboxes ≡ true)
  Placed raw a (err e, b) = Unit

  inserted-Placed :
      (raw : Text) (a d : Archive) (m : Message) (r : Result Message × Archive)
      → d.messages ≡ a.messages
      → m.raw_mime ≡ raw
      → m.mailbox_id ≡ trim_space (inbox d)
      → Inserts m d r
      → Placed raw a (and_then r (λ _. pure tt))
  unfolding Placed inbox
  inserted-Placed raw a d m (err e, b) s x y h = tt
  inserted-Placed raw a d m (ok n, b) s x y (more, same, has) =
      (m, rw (← s) more, x, rw same y, rw same has)

  Found-Placed :
      (from raw : Text) (at : ℕ) (a : Archive) (r : Result Text × Archive)
      → r.1.messages ≡ a.messages
      → Found r
      → Placed raw a (
          and_then r (λ id. do
            n ← gets (λ b. b.ids)
            _ ← create_message env.sql (env.clock n) (input_of env from raw user at id)
            pure tt))
  unfolding inbox
  Found-Placed from raw at a (err e, d) s h = tt
  Found-Placed from raw at a (ok id, d) s h =
      inserted-Placed raw a d
        (message_of (env.sql.new_id d.ids) (env.clock d.ids) (input_of env from raw user at id))
        (create_message env.sql (env.clock d.ids) (input_of env from raw user at id) d) s refl
        (ap trim_space (sym h))
        (create_message-Inserts env.sql d (sound.no_fault d.statements) (env.clock d.ids)
          (input_of env from raw user at id))

  deliver_one-Placed :
      (from raw : Text) (at : ℕ) (a : Archive) → Placed raw a (deliver_one env from raw user at a)
  unfolding deliver_one
  deliver_one-Placed from raw at a =
      Found-Placed from raw at a (find_or_create_mailbox env user env.inbound a)
        ((find_or_create_mailbox-Keeps env a.messages user env.inbound).at a refl)
        (find_or_create_mailbox-Found a)

  -- The messages of a mailbox, as POP3 loads them.
  load_messages_all :
      (fault : ℕ → Option Text) (bcrypt_ok : Text → Text → Bool) (c : ℕ) (id : Text) (b : Archive)
      → length (filter (λ m. text_eq m.mailbox_id (trim_space (c ∷ id))) b.messages) ≤ 1000
      → (load_messages (pop3_of env fault bcrypt_ok) (c ∷ id) b).0
        ≡ ok (
            map msg_of (
              env.sql.order_messages
                (filter (λ m. text_eq m.mailbox_id (trim_space (c ∷ id))) b.messages)))
  unfolding load_messages
  load_messages_all fault bcrypt_ok c id b few =
      let ms = filter (λ (m : Message). text_eq m.mailbox_id (trim_space (c ∷ id))) b.messages in
      rw (list_messages_sound env.sql b (sound.no_fault b.statements) (c ∷ id) 1000) (
        ap (λ (xs : List Message). ok (map msg_of xs))
          (take_all 1000 (env.sql.order_messages ms)
            (omega (arith, few, sound.messages.same_length ms))))

  In-mailbox :
      (m : Message) (ms : List Message) (id : Text) (b : Archive)
      → b.messages ≡ m ∷ ms
      → m.mailbox_id ≡ id
      → In m (filter (λ x. text_eq x.mailbox_id id) b.messages)
  In-mailbox m ms id b e same =
      let here : text_eq m.mailbox_id id ≡ true = rw same (text_eq_self id) in
      rw (e, here) (inl refl)

  load-Shown :
      (fault : ℕ → Option Text) (bcrypt_ok : Text → Text → Bool) (id : Text) (b : Archive)
      (m : Message) (ms : List Message)
      → b.messages ≡ m ∷ ms
      → m.mailbox_id ≡ trim_space id
      → has_id m.mailbox_id b.mailboxes ≡ true
      → has_id [] b.mailboxes ≡ false
      → length (filter (λ x. text_eq x.mailbox_id (trim_space id)) b.messages) ≤ 1000
      → Shown m (load_messages (pop3_of env fault bcrypt_ok) id b).0
  unfolding trim_space
  load-Shown fault bcrypt_ok [] b m ms e same has none_empty few =
      absurd (ground (arith, rw same at has, none_empty))
  load-Shown fault bcrypt_ok (c ∷ id) b m ms e same has none_empty few =
      rw (load_messages_all fault bcrypt_ok c id b few) (
        In-map msg_of m _
          (sound.messages.forth m _ (In-mailbox m ms (trim_space (c ∷ id)) b e same)))

  load_mailbox-inbox :
      (fault : ℕ → Option Text) (bcrypt_ok : Text → Text → Bool) (b : Archive)
      → (load_mailbox (pop3_of env fault bcrypt_ok) user b).0
        ≡ (load_messages
            (pop3_of env fault bcrypt_ok)
            (inbox b)
            (record b { statements = b.statements + 1 })).0
  unfolding load_mailbox inbox
  load_mailbox-inbox fault bcrypt_ok b =
      rw (list_mailboxes_sound env.sql b (sound.no_fault b.statements) user) refl

  -- A message that LMTP has accepted for a user is in the maildrop that POP3 opens for the user, on
  -- the same archive. The database has no fault and orders rows as SQL does, the name of the inbox
  -- has no space around it, no mailbox has an empty id, and a mailbox has at most 1000 messages.
  pub load_mailbox-deliver_one :
      (fault : ℕ → Option Text) (bcrypt_ok : Text → Text → Bool) (from raw : Text) (at : ℕ)
      (a b : Archive)
      → deliver_one env from raw user at a ≡ (ok tt, b)
      → has_id [] b.mailboxes ≡ false
      → ((id : Text) → length (filter (λ x. text_eq x.mailbox_id id) b.messages) ≤ 1000)
      → (m : Message) × (b.messages ≡ m ∷ a.messages)
        × (m.raw_mime ≡ raw)
        × Shown m (load_mailbox (pop3_of env fault bcrypt_ok) user b).0
  unfolding Placed
  load_mailbox-deliver_one fault bcrypt_ok from raw at a b e none_empty few =
      let placed : Placed raw a (ok tt, b) = rw e at (deliver_one-Placed from raw at a) in
      let (m, more, same_raw, same_box, has) = placed in
      (
        m,
        more,
        same_raw,
        rw (load_mailbox-inbox fault bcrypt_ok b) (
            load-Shown fault bcrypt_ok (inbox b) (record b { statements = b.statements + 1 }) m
              a.messages more same_box has none_empty (few (trim_space (inbox b)))),
      )
