-- ===== src/Handlers/Messages.antt =====
-- Mailboxes and messages of the archive, in cmd/mail-admin/app/handlers/service.go.
use ucware_mail_server.Base.{
  ℕ, Bool, not, ◌&&◌, ◌||◌, ◌==◌, [], ◌∷◌, map, Option, none, some, length, if◌then◌else◌,
}
use ucware_mail_server.Text.{Text, codes, text_eq, is_empty, to_lower, trim_space}
use ucware_mail_server.Text.Numbers.{ℤ, pos, negsuc}
use ucware_mail_server.Archive.{
  Mailbox, Message, list_mailboxes, create_mailbox, list_messages, create_message,
}
use ucware_mail_server.Security.{role_admin, role_operator}
use ucware_mail_server.Http.{
  Request, MailboxResponse, MessageResponse, ◌>>=◌, ◌>>◌, pure, send, http_error, mailbox,
  mailboxes, message, messages,
}
use ucware_mail_server.Handlers.Attachments.Extract.{extract_attachment_meta}
use ucware_mail_server.Handlers.State.{
  Config, Env, H, query_archive, require, method_not_allowed, bad_request, forbidden, or_bad_json,
  parse_limit, is_valid_email, now, write_audit,
}
use ucware_mail_server.Handlers.Routing.{Route, route, invalid, resolve_mailbox_id_for_auto_route}

pub record CreateMailboxRequest : Type 0 where
  pub user_email : Text
  pub name : Text

pub record IngestMessageRequest : Type 0 where
  pub mailbox_id : Text
  pub direction : Text
  pub from_addr : Text
  pub to_addr : Text
  pub subject : Text
  pub raw_mime : Text
  pub text_body : Text
  pub size_bytes : ℤ
  pub received_at : Text

abbrev mailbox_response : Mailbox → MailboxResponse
mailbox_response b = record {
  id = b.id;
  user_email = b.user_email;
  name = b.name;
  created_at = b.created_at;
}

-- `role != RoleAdmin && role != RoleOperator` is refused.
abbrev pub may_write : Text → Bool
unfolding text_eq
may_write role = text_eq role role_admin || text_eq role role_operator

abbrev archive_disabled : {A : Type 0} → H A
archive_disabled = http_error 501 (codes "archive db is disabled")

module _ (env : Env) (c : Config) where
  abbrev pub message_response : Message → MessageResponse
  unfolding extract_attachment_meta
  message_response m = record {
    id = m.id;
    mailbox_id = m.mailbox_id;
    direction = m.direction;
    from_addr = m.from_addr;
    to_addr = m.to_addr;
    subject = m.subject;
    raw_mime = m.raw_mime;
    text_body = m.text_body;
    size_bytes = m.size_bytes;
    attachments = extract_attachment_meta env.codec m.raw_mime;
    received_at = m.received_at;
    created_at = m.created_at;
  }

  list_boxes : Text → H (Unit {0})
  unfolding list_mailboxes to_lower trim_space
  list_boxes raw_user = do
    rows ← query_archive (list_mailboxes env.sql (to_lower (trim_space raw_user)))
    send 200 (mailboxes (map mailbox_response rows))

  new_box : Request → Text → Text → H (Unit {0})
  unfolding is_valid_email create_mailbox
  new_box r user_email name = do
    require (is_valid_email env user_email) (bad_request (codes "invalid userEmail"))
    require (not (is_empty name)) (bad_request (codes "name is required"))
    mb ← query_archive (λ a. create_mailbox env.sql (env.row_clock a.ids) user_email name a)
    write_audit env r (codes "create_mailbox") user_email (codes "ok") name
    send 201 (mailbox (mailbox_response mb))

  create_box : Request → Option CreateMailboxRequest → H (Unit {0})
  unfolding new_box to_lower trim_space
  create_box r body = do
    req ← or_bad_json body
    new_box r (to_lower (trim_space req.user_email)) (trim_space req.name)

  -- The second argument is the query parameter `userEmail`.
  unfoldable pub handle_mailboxes : Request → Text → Option CreateMailboxRequest → H (Unit {0})
  unfolding list_boxes create_box text_eq
  handle_mailboxes r raw_user body =
      require c.archive_enabled archive_disabled
      >> (if text_eq r.method (codes "GET")
          then list_boxes raw_user
          else if text_eq r.method (codes "POST")
          then (require (may_write r.role) forbidden >> create_box r body)
          else method_not_allowed)

  list_mail : Text → Text → H (Unit {0})
  unfolding list_messages parse_limit trim_space
  list_mail raw_mailbox raw_limit = do
    let mailbox_id = trim_space raw_mailbox
    require (not (is_empty mailbox_id)) (bad_request (codes "mailboxId is required"))
    limit ← parse_limit raw_limit
    rows ← query_archive (list_messages env.sql mailbox_id limit)
    send 200 (messages (map message_response rows))

  or_invalid : Route Text → H Text
  or_invalid (route id) = pure id
  or_invalid (invalid why) = bad_request why

  -- An empty id stands for none.
  mailbox_for : Text → Text → Text → Text → H Text
  unfolding resolve_mailbox_id_for_auto_route or_invalid
  mailbox_for [] direction from_addr to_addr = do
    require c.archive_auto_route_enabled
        (bad_request (codes "mailboxId is required (or enable ARCHIVE_AUTO_ROUTE_ENABLED)"))
    found ← query_archive (resolve_mailbox_id_for_auto_route env c direction from_addr to_addr)
    or_invalid found
  mailbox_for (b ∷ id) direction from_addr to_addr = pure (b ∷ id)

  or_bad_time : Option ℕ → H ℕ
  or_bad_time none = bad_request (codes "receivedAt must be RFC3339")
  or_bad_time (some t) = pure t

  -- The clock is read in either case; the text is parsed as it was given.
  received_time : Text → H ℕ
  unfolding or_bad_time trim_space
  received_time raw = do
    t ← now env
    if is_empty (trim_space raw) then pure t else or_bad_time (env.parse_time raw)

  size_given : Text → ℤ → H ℕ
  size_given raw (negsuc _) = bad_request (codes "sizeBytes must be >= 0")
  size_given raw (pos n) = pure (if n == 0 && not (is_empty raw) then length raw else n)

  ingest : Request → IngestMessageRequest → Text → Text → Text → H (Unit {0})
  unfolding mailbox_for received_time size_given create_message text_eq trim_space
  ingest r req direction from_addr to_addr = do
    require (not (is_empty from_addr) && not (is_empty to_addr))
        (bad_request (codes "fromAddr/toAddr are required"))
    require (text_eq direction (codes "inbound") || text_eq direction (codes "outbound"))
        (bad_request (codes "direction must be inbound or outbound"))
    id ← mailbox_for (trim_space req.mailbox_id) direction from_addr to_addr
    at ← received_time req.received_at
    size ← size_given req.raw_mime req.size_bytes
    m ← query_archive (λ a.
        create_message env.sql (env.row_clock a.ids)
          (record {
            mailbox_id = id;
            direction = direction;
            from_addr = from_addr;
            to_addr = to_addr;
            subject = req.subject;
            raw_mime = req.raw_mime;
            text_body = req.text_body;
            size_bytes = size;
            received_at = at;
          })
          a)
    write_audit env r (codes "ingest_message") [] (codes "ok") m.direction
    send 201 (message (message_response m))

  ingest_decoded : Request → Option IngestMessageRequest → H (Unit {0})
  unfolding ingest to_lower trim_space
  ingest_decoded r body = do
    req ← or_bad_json body
    ingest r req (to_lower (trim_space req.direction)) (trim_space req.from_addr)
        (trim_space req.to_addr)

  -- The second and the third argument are the query parameters `mailboxId` and `limit`.
  unfoldable pub handle_messages :
      Request → Text → Text → Option IngestMessageRequest → H (Unit {0})
  unfolding list_mail ingest_decoded text_eq
  handle_messages r raw_mailbox raw_limit body =
      require c.archive_enabled archive_disabled
      >> (if text_eq r.method (codes "GET")
          then list_mail raw_mailbox raw_limit
          else if text_eq r.method (codes "POST")
          then (require (may_write r.role) forbidden >> ingest_decoded r body)
          else method_not_allowed)
