-- ===== src/Handlers/Routing/Copies.antt =====
-- What `archiveOutboundCopy` of cmd/mail-admin/app/handlers/service.go leaves in the archive.
use ucware_mail_server.Base.{
  ℕ, ◌≡◌, refl, ◌∙◌, Option, none, some, List, [], ◌∷◌, ◌++◌, Bool-cases, inl, inr,
}
use ucware_mail_server.Text.{Text, codes, to_lower, trim_space}
use ucware_mail_server.Sql.{
  Error, failed, Result, ok, err, Exec, pure, raise, gets, and_then, ◌>>=◌,
}
use ucware_mail_server.Sql.Keeps.{Keeps, bind-Keeps, pure-Keeps, raise-Keeps}
use ucware_mail_server.Archive.{
  Mailbox, Message, CreateMessageInput, Archive, message_of, create_mailbox, create_message,
  list_mailboxes,
}
use ucware_mail_server.Archive.Reads.{list_mailboxes-SameTables}
use ucware_mail_server.Archive.Writes.{create_mailbox-messages, Creates, create_message-Creates}
use ucware_mail_server.Lmtp.Delivery.{recover}
use ucware_mail_server.Lmtp.Delivery.Stored.{Holds, catch-Keeps}
use ucware_mail_server.Handlers.State.{Config, Env, error_text}
use ucware_mail_server.Handlers.Routing.{
  Route, route, invalid, find_named, wrapped, new_mailbox, or_failed, find_again, or_new,
  find_target, at_target, resolve_mailbox_id_for_auto_route, route_target, routed, or_new_sent,
  sent_mailbox, outbound_name, outbound_input, outbound_mailbox, archive_copy,
  archive_outbound_copy,
}

wrapped-Keeps :
    {A : Type 0} (ms : List Message) (why : Text) (m : Exec Archive A)
    → Keeps (Holds ms) m
    → Keeps (Holds ms) (wrapped why m)
wrapped-Keeps ms why m h = catch-Keeps m _ h λ e. raise-Keeps (failed (why ++ error_text e))

-- One outbound message more, of the addresses given; or the messages as they were.
abbrev pub Copies : Text → Text → Archive → Result (Unit {0}) × Archive → Type 0
Copies from to a (ok _, b) =
    (m : Message) × (b.messages ≡ m ∷ a.messages)
    × (m.direction ≡ codes "outbound")
    × (m.from_addr ≡ trim_space from)
    × (m.to_addr ≡ trim_space to)
Copies from to a (err e, b) = b.messages ≡ a.messages

outbound_direction : to_lower (trim_space (codes "outbound")) ≡ codes "outbound"
unfolding to_lower trim_space
outbound_direction = refl

module _ (env : Env) (ms : List Message) where
  listed : (u : Text) → Keeps (Holds ms) (list_mailboxes env.sql u)
  listed u = record { at = λ a h. (list_mailboxes-SameTables env.sql u a).same_messages ∙ h }

  created : (now : ℕ) (u name : Text) → Keeps (Holds ms) (create_mailbox env.sql now u name)
  created now u name = record { at = λ a h. create_mailbox-messages env.sql now u name a ∙ h }

  new_mailbox-Keeps : (u name : Text) → Keeps (Holds ms) (new_mailbox env u name)
  unfolding new_mailbox
  new_mailbox-Keeps u name = record {
    at = λ a h.
        (bind-Keeps _ _ (created (env.row_clock a.ids) u name)
            (λ (box : Mailbox). pure-Keeps box.id)).at
          a h;
  }

  or_failed-Keeps : (e : Error) (o : Option Text) → Keeps (Holds ms) (or_failed env e o)
  unfolding or_failed
  or_failed-Keeps e none = raise-Keeps e
  or_failed-Keeps e (some id) = pure-Keeps id

  find_again-Keeps : (u name : Text) (e : Error) → Keeps (Holds ms) (find_again env u name e)
  unfolding find_again
  find_again-Keeps u name e =
      bind-Keeps _ _ (catch-Keeps _ _ (listed u) (λ _. pure-Keeps [])) λ rows.
        or_failed-Keeps (failed (codes "create mailbox failed: " ++ error_text e))
          (find_named name rows)

  or_new-Keeps : (u name : Text) (o : Option Text) → Keeps (Holds ms) (or_new env u name o)
  unfolding or_new
  or_new-Keeps u name (some id) = pure-Keeps id
  or_new-Keeps u name none = catch-Keeps _ _ (new_mailbox-Keeps u name) (find_again-Keeps u name)

  find_target-Keeps : (u name : Text) → Keeps (Holds ms) (find_target env u name)
  unfolding find_target
  find_target-Keeps u name =
      bind-Keeps _ _ (wrapped-Keeps ms (codes "list mailboxes failed: ") _ (listed u))
        λ rows. or_new-Keeps u name (find_named name rows)

  at_target-Keeps : (t : Route (Text × Text)) → Keeps (Holds ms) (at_target env t)
  unfolding at_target
  at_target-Keeps (invalid why) = pure-Keeps (invalid why)
  at_target-Keeps (route (u, name)) =
      bind-Keeps _ _ (find_target-Keeps u name) λ (id : Text). pure-Keeps (route id)

  routed-Keeps : (x : Route Text) → Keeps (Holds ms) (routed env x)
  unfolding routed
  routed-Keeps (route id) = pure-Keeps id
  routed-Keeps (invalid why) = raise-Keeps (failed why)

  or_new_sent-Keeps :
      (u name : Text) (o : Option Text) → Keeps (Holds ms) (or_new_sent env u name o)
  unfolding or_new_sent
  or_new_sent-Keeps u name (some (b ∷ id)) = pure-Keeps (b ∷ id)
  or_new_sent-Keeps u name (some []) =
      wrapped-Keeps ms (codes "archive create mailbox failed: ") _ (new_mailbox-Keeps u name)
  or_new_sent-Keeps u name none =
      wrapped-Keeps ms (codes "archive create mailbox failed: ") _ (new_mailbox-Keeps u name)

  sent_mailbox-Keeps : (c : Config) (u : Text) → Keeps (Holds ms) (sent_mailbox env c u)
  unfolding sent_mailbox
  sent_mailbox-Keeps c u =
      bind-Keeps _ _ (wrapped-Keeps ms (codes "archive list mailboxes failed: ") _ (listed u))
        λ boxes. or_new_sent-Keeps u (outbound_name env c) (find_named (outbound_name env c) boxes)

  outbound_mailbox-Keeps :
      (c : Config) (id from to : Text) → Keeps (Holds ms) (outbound_mailbox env c id from to)
  unfolding outbound_mailbox resolve_mailbox_id_for_auto_route
  outbound_mailbox-Keeps c (b ∷ id) from to = pure-Keeps (b ∷ id)
  outbound_mailbox-Keeps c [] from to = elim (Bool-cases c.archive_auto_route_enabled) [
    | inl e ↦ rw e (
        wrapped-Keeps ms (codes "archive route failed: ") _ (
          bind-Keeps _ _ (at_target-Keeps (route_target env c (codes "outbound") from to))
            routed-Keeps))
    | inr e ↦ rw e (sent_mailbox-Keeps c from)
  ]

module _ (env : Env) (c : Config) (from to subject text raw : Text) (now : ℕ) where
  abbrev input : Text → CreateMessageInput
  input = outbound_input env from to subject text raw now

  recovered-Creates :
      (why : Text) (m : Message) (a : Archive) (r : Result Message × Archive)
      → Creates m a r
      → Creates m a (recover (λ e. raise (failed (why ++ error_text e))) r)
  recovered-Creates why m a (ok n, b) h = h
  recovered-Creates why m a (err e, b) h = h

  created-Copies :
      (id uuid : Text) (t : ℕ) (a b : Archive) (r : Result Message × Archive)
      → b.messages ≡ a.messages
      → Creates (message_of uuid t (input id)) b r
      → Copies from to a (and_then r (λ _. pure tt))
  created-Copies id uuid t a b (ok n, d) h (e, f) =
      (message_of uuid t (input id), rw (← h) f, outbound_direction, refl, refl)
  created-Copies id uuid t a b (err e, d) h f = f ∙ h

  placed-Copies :
      (a : Archive) (r : Result Text × Archive)
      → r.1.messages ≡ a.messages
      → Copies from to a (
          and_then r (λ id. do
            n ← gets (λ b. b.ids)
            _ ←
                wrapped
                  (codes "archive create message failed: ")
                  (create_message env.sql (env.row_clock n) (input id))
            pure tt))
  placed-Copies a (err e, b) h = h
  placed-Copies a (ok id, b) h =
      created-Copies id (env.sql.new_id b.ids) (env.row_clock b.ids) a b _ h (
        recovered-Creates (codes "archive create message failed: ") _ b _
          (create_message-Creates env.sql (env.row_clock b.ids) (input id) b))

  -- A copy that succeeds adds one outbound message to the archive, with the addresses; one that
  -- fails leaves the messages as they were.
  pub archive_outbound_copy-Copies :
      (id : Text) (a : Archive)
      → Copies from to a (archive_outbound_copy env c id from to subject text raw now a)
  unfolding archive_outbound_copy archive_copy
  archive_outbound_copy-Copies id a = elim (Bool-cases c.archive_enabled) [
    | inr e ↦ rw e refl
    | inl e ↦ rw e (
        placed-Copies a (outbound_mailbox env c (trim_space id) from to a)
          ((outbound_mailbox-Keeps env a.messages c (trim_space id) from to).at a refl))
  ]
