-- ===== src/Handlers/Routing.antt =====
-- `resolveMailboxIDForAutoRoute` and `archiveOutboundCopy` of
-- cmd/mail-admin/app/handlers/service.go: the mailbox that a message belongs in.
pub mod Copies
use ucware_mail_server.Base.{
  ℕ, Bool, ◌++◌, List, [], ◌∷◌, Option, none, some, length, if◌then◌else◌,
}
use ucware_mail_server.Text.{Text, codes, text_eq, is_empty, to_lower, trim_space, equal_fold}
use ucware_mail_server.Sql.{Error, failed, Result, ok, err, Exec, pure, raise, gets, ◌>>=◌, ◌>>◌}
use ucware_mail_server.Archive.{
  Mailbox, CreateMessageInput, Archive, Sql, list_mailboxes, create_mailbox, create_message,
}
use ucware_mail_server.Lmtp.Delivery.{catch}
use ucware_mail_server.Handlers.State.{Config, Env, error_text, is_valid_email}

-- Where a message goes, or why none can be found: `errInvalidAutoRoute`.
pub data Route (A : Type 0) : Type 0 where
  route : A → Route A
  invalid : Text → Route A

-- The loop over the mailboxes, to a name that is not trimmed.
unfoldable pub find_named : Text → List Mailbox → Option Text
unfolding equal_fold trim_space
find_named name [] = none
find_named name (b ∷ bs) =
    if equal_fold (trim_space b.name) name then some b.id else find_named name bs

-- `fmt.Errorf` with `%w`.
abbrev pub wrapped : {S A : Type 0} → Text → Exec S A → Exec S A
wrapped why m = catch m (λ e. raise (failed (why ++ error_text e)))

module _ (env : Env) where
  check_route : Text → Text → Route (Text × Text)
  unfolding is_valid_email
  check_route user_email name =
      if is_valid_email env user_email
      then (if is_empty name
          then invalid (codes "invalid auto route input: mailbox name is empty")
          else route (user_email, name))
      else invalid (codes "invalid auto route input: invalid target email for auto route")

  -- The user and the name of the mailbox.
  unfoldable pub route_target : Config → Text → Text → Text → Route (Text × Text)
  unfolding check_route to_lower trim_space text_eq
  route_target c direction from_addr to_addr =
      if text_eq direction (codes "inbound")
      then check_route (to_lower (trim_space to_addr)) (trim_space c.archive_inbound_mailbox)
      else if text_eq direction (codes "outbound")
      then check_route (to_lower (trim_space from_addr)) (trim_space c.archive_outbound_mailbox)
      else invalid (codes "invalid auto route input: unsupported direction")

  new_mailbox : Text → Text → Exec Archive Text
  unfolding create_mailbox
  new_mailbox user_email name = do
    n ← gets (λ a. a.ids)
    box ← create_mailbox env.sql (env.row_clock n) user_email name
    pure box.id

  or_failed : Error → Option Text → Exec Archive Text
  or_failed e none = raise e
  or_failed e (some id) = pure id

  -- Another request may have made the mailbox since.
  find_again : Text → Text → Error → Exec Archive Text
  unfolding list_mailboxes find_named or_failed
  find_again user_email name e = do
    rows ← catch (list_mailboxes env.sql user_email) (λ _. pure [])
    or_failed (failed (codes "create mailbox failed: " ++ error_text e)) (find_named name rows)

  or_new : Text → Text → Option Text → Exec Archive Text
  unfolding new_mailbox find_again
  or_new user_email name (some id) = pure id
  or_new user_email name none = catch (new_mailbox user_email name) (find_again user_email name)

  unfoldable pub find_target : Text → Text → Exec Archive Text
  unfolding list_mailboxes find_named or_new
  find_target user_email name = do
    rows ← wrapped (codes "list mailboxes failed: ") (list_mailboxes env.sql user_email)
    or_new user_email name (find_named name rows)

  at_target : Route (Text × Text) → Exec Archive (Route Text)
  unfolding find_target
  at_target (invalid why) = pure (invalid why)
  at_target (route (user_email, name)) = do id ← find_target user_email name; pure (route id)

  unfoldable pub resolve_mailbox_id_for_auto_route :
      Config → Text → Text → Text → Exec Archive (Route Text)
  unfolding route_target at_target
  resolve_mailbox_id_for_auto_route c direction from_addr to_addr =
      at_target (route_target c direction from_addr to_addr)

  -- Both kinds of failure are one to `archiveOutboundCopy`.
  routed : Route Text → Exec Archive Text
  routed (route id) = pure id
  routed (invalid why) = raise (failed why)

  or_new_sent : Text → Text → Option Text → Exec Archive Text
  unfolding new_mailbox
  or_new_sent user_email name (some (b ∷ id)) = pure (b ∷ id)
  or_new_sent user_email name _ =
      wrapped (codes "archive create mailbox failed: ") (new_mailbox user_email name)

  unfoldable pub outbound_name : Config → Text
  unfolding trim_space
  outbound_name c =
      let configured = trim_space c.archive_outbound_mailbox in
      if is_empty configured then codes "SENT" else configured

  sent_mailbox : Config → Text → Exec Archive Text
  unfolding list_mailboxes find_named or_new_sent outbound_name
  sent_mailbox c from_addr = do
    boxes ← wrapped (codes "archive list mailboxes failed: ") (list_mailboxes env.sql from_addr)
    or_new_sent from_addr (outbound_name c) (find_named (outbound_name c) boxes)

  -- An empty id stands for none.
  unfoldable pub outbound_mailbox : Config → Text → Text → Text → Exec Archive Text
  unfolding resolve_mailbox_id_for_auto_route routed sent_mailbox
  outbound_mailbox c [] from_addr to_addr =
      if c.archive_auto_route_enabled
      then wrapped (codes "archive route failed: ")
          (resolve_mailbox_id_for_auto_route c (codes "outbound") from_addr to_addr >>= routed)
      else sent_mailbox c from_addr
  outbound_mailbox c (b ∷ id) from_addr to_addr = pure (b ∷ id)

  -- The arguments are the addresses, the subject, the text, the message, the time, and the id.
  abbrev pub outbound_input : Text → Text → Text → Text → Text → ℕ → Text → CreateMessageInput
  outbound_input from_addr to_addr subject text_body raw now id = record {
    mailbox_id = id;
    direction = codes "outbound";
    from_addr = from_addr;
    to_addr = to_addr;
    subject = subject;
    raw_mime = raw;
    text_body = text_body;
    size_bytes = length raw;
    received_at = now;
  }

  unfoldable pub archive_copy :
      Config → Text → Text → Text → (Text → CreateMessageInput) → Exec Archive (Unit {0})
  unfolding outbound_mailbox create_message trim_space
  archive_copy c mailbox_id from_addr to_addr input = do
    id ← outbound_mailbox c (trim_space mailbox_id) from_addr to_addr
    n ← gets (λ a. a.ids)
    _ ←
        wrapped (codes "archive create message failed: ")
          (create_message env.sql (env.row_clock n) (input id))
    pure tt

  -- The arguments after the settings are the mailbox's id, the addresses, the subject, the text, the
  -- message, and the time.
  unfoldable pub archive_outbound_copy :
      Config → Text → Text → Text → Text → Text → Text → ℕ → Exec Archive (Unit {0})
  unfolding archive_copy
  archive_outbound_copy c mailbox_id from_addr to_addr subject text_body raw now =
      if c.archive_enabled
      then archive_copy c mailbox_id from_addr to_addr
          (outbound_input from_addr to_addr subject text_body raw now)
      else raise (failed (codes "archive db is disabled"))
