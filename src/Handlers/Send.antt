-- ===== src/Handlers/Send.antt =====
-- `HandleSend` of cmd/mail-admin/app/handlers/service.go, with `parseSendRequest`.
pub mod Accounted
use ucware_mail_server.Base.{
  ℕ, ◌+◌, Bool, true, false, not, ◌&&◌, ◌++◌, List, [], ◌∷◌, leb, Option, none, some, if◌then◌else◌,
}
use ucware_mail_server.Text.{Text, codes, is_empty, to_lower, trim_space, has_prefix, text_eq}
use ucware_mail_server.Text.Numbers.{format_int}
use ucware_mail_server.Sql.{Error, failed, Result, ok, err}
use ucware_mail_server.RateLimit.{allow}
use ucware_mail_server.Http.{
  Request, AttachmentMeta, got, ◌>>=◌, ◌>>◌, pure, send, http_error, mail_sent,
}
use ucware_mail_server.Http.ClientIp.{request_client_ip}
use ucware_mail_server.Handlers.Attachments.{
  SendAttachment, FileHeader, SendFilePayload, collect_uploaded_attachments,
  decode_json_attachments, total_attachment_bytes, attachment_meta_from_files, validate_file_count,
  send_archive_raw_max_bytes,
}
use ucware_mail_server.Handlers.Attachments.Extract.{extract_attachment_meta}
use ucware_mail_server.Handlers.Mime.{build_raw_mime, build_multipart_mime}
use ucware_mail_server.Handlers.Routing.{archive_outbound_copy}
use ucware_mail_server.Handlers.Smtp.{client, send_multipart_smtp, send_mail}
use ucware_mail_server.Handlers.State.{
  Config, Env, Service, H, error_text, or_else, try_archive, require, method_not_allowed,
  bad_request, actor_of, is_valid_email, now, write_audit, refuse,
}

pub record SendMessageRequest : Type 0 where
  pub from_addr : Text
  pub to_addr : Text
  pub subject : Text
  pub text_body : Text
  pub raw_mime : Text
  pub mailbox_id : Text
  pub attachments : List SendAttachment

-- The body: the `Content-Type`, the form where it parses (`FormValue` and the files of the field
-- `attachments`), and the JSON where it decodes.
pub record SendBody : Type 0 where
  pub content_type : Text
  pub form : Option ((Text → Text) × List FileHeader)
  pub json : Option SendMessageRequest

abbrev with_request :
    SendMessageRequest
    → Result (List SendFilePayload)
    → Result (SendMessageRequest × List SendFilePayload)
with_request req (ok files) = ok (req, files)
with_request req (err e) = err e

abbrev form_request : (Text → Text) → SendMessageRequest
form_request value = record {
  from_addr = value (codes "fromAddr");
  to_addr = value (codes "toAddr");
  subject = value (codes "subject");
  text_body = value (codes "textBody");
  raw_mime = value (codes "rawMime");
  mailbox_id = value (codes "mailboxId");
  attachments = [];
}

parse_form :
    Option ((Text → Text) × List FileHeader) → Result (SendMessageRequest × List SendFilePayload)
unfolding collect_uploaded_attachments
parse_form none = err (failed (codes "invalid multipart form"))
parse_form (some (value, headers)) =
    with_request (form_request value) (collect_uploaded_attachments headers)

parse_json : Option SendMessageRequest → Result (SendMessageRequest × List SendFilePayload)
parse_json none = err (failed (codes "invalid json"))
parse_json (some req) = ok (req, [])

unfoldable pub parse_send_request : SendBody → Result (SendMessageRequest × List SendFilePayload)
unfolding parse_form parse_json has_prefix to_lower trim_space
parse_send_request body =
    if has_prefix (to_lower (trim_space body.content_type)) (codes "multipart/form-data")
    then parse_form body.form
    else parse_json body.json

module _ (env : Env) (c : Config) where
  -- The key of the limiter: the actor, or else the address.
  unfoldable pub send_key : Request → Text
  unfolding request_client_ip to_lower trim_space
  send_key r =
      let actor = trim_space (actor_of r) in
      if is_empty actor
      then codes "ip:" ++ request_client_ip env.split_host r.forwarded_for r.real_ip r.remote_addr
      else codes "actor:" ++ to_lower actor

  unfoldable pub allow_send : Request → H Bool
  unfolding send_key allow
  allow_send r s = (
    got (allow s.send_limiter (send_key r) (env.clock s.reads)).1,
    record s {
      send_limiter = (allow s.send_limiter (send_key r) (env.clock s.reads)).0;
      reads = s.reads + 1;
    },
  )

  abbrev send_audit : Text
  send_audit = codes "send_message"

  -- `archiveOutboundCopy`, with the time it reads.
  unfoldable pub archive_sent : SendMessageRequest → Text → H (Result (Unit {0}))
  unfolding archive_outbound_copy
  archive_sent req raw = do
    t ← now env
    try_archive (
        archive_outbound_copy env c req.mailbox_id req.from_addr req.to_addr req.subject
          req.text_body raw t)

  -- The audit row and the answer: the copy is archived, or a warning says why not.
  unfoldable pub answer_sent :
      Request → SendMessageRequest → List AttachmentMeta → Result (Unit {0}) → H (Unit {0})
  answer_sent r req meta (ok _) = do
    write_audit env r send_audit req.to_addr (codes "ok") (codes "sent")
    send 200 (mail_sent (record { archived = true; attachments = meta; warning = [] }))
  answer_sent r req meta (err e) = do
    write_audit env r send_audit req.to_addr (codes "ok") (codes "sent")
    send 200 (mail_sent (record { archived = false; attachments = meta; warning = error_text e }))

  unfoldable pub smtp_failed : {A : Type 0} → Request → SendMessageRequest → Error → H A
  smtp_failed r req e =
      write_audit env r send_audit req.to_addr (codes "failed") (error_text e) >>= λ _.
      http_error 502 (codes "smtp send failed: " ++ error_text e)

  archive_built : SendMessageRequest → Result Text → H (Result (Unit {0}))
  unfolding archive_sent
  archive_built req (ok raw) = archive_sent req raw
  archive_built req (err e) =
      pure (err (failed (codes "message sent, but archive copy skipped: " ++ error_text e)))

  -- The message is built anew.
  rebuild : SendMessageRequest → List SendFilePayload → H (Result Text)
  unfolding build_multipart_mime
  rebuild req files s = (
    got (
        build_multipart_mime env.codec (env.boundary s.reads) (env.clock s.reads) req.from_addr
          req.to_addr req.subject req.text_body files),
    record s { reads = s.reads + 1 },
  )

  unfoldable pub archive_files : SendMessageRequest → List SendFilePayload → H (Result (Unit {0}))
  unfolding rebuild archive_built total_attachment_bytes format_int
  archive_files req files =
      if leb (total_attachment_bytes files) send_archive_raw_max_bytes
      then (rebuild req files >>= archive_built req)
      else pure (
          err (
            failed (
              codes "message sent, but archive copy skipped for large attachments over "
              ++ (format_int send_archive_raw_max_bytes ++ codes " bytes"))))

  unfoldable pub send_files : Request → SendMessageRequest → List SendFilePayload → H (Unit {0})
  unfolding send_multipart_smtp smtp_failed validate_file_count attachment_meta_from_files
      archive_files answer_sent
  send_files r req files = do
    or_else (validate_file_count files) (λ e. bad_request (error_text e))
    done ←
        client (send_multipart_smtp env c req.from_addr req.to_addr req.subject req.text_body files)
    or_else done (smtp_failed r req)
    copy ← archive_files req files
    answer_sent r req (attachment_meta_from_files env.codec files) copy

  unfoldable pub send_raw : Request → SendMessageRequest → Text → H (Unit {0})
  unfolding send_mail smtp_failed extract_attachment_meta archive_sent answer_sent
  send_raw r req raw = do
    done ← client (send_mail env c req.from_addr req.to_addr raw)
    or_else done (smtp_failed r req)
    copy ← archive_sent req raw
    answer_sent r req (extract_attachment_meta env.codec raw) copy

  -- A message without attachments is built here.
  send_built : Request → SendMessageRequest → List SendFilePayload → H (Unit {0})
  unfolding send_raw send_files build_raw_mime
  send_built r req [] = do
    t ← now env
    send_raw r req (build_raw_mime env.codec t req.from_addr req.to_addr req.subject req.text_body)
  send_built r req (f ∷ files) = send_files r req (f ∷ files)

  -- The attachments of the JSON body, where the form has none.
  payloads : SendMessageRequest → List SendFilePayload → Result (List SendFilePayload)
  unfolding decode_json_attachments
  payloads req [] = decode_json_attachments env.codec req.attachments
  payloads req (f ∷ files) = ok (f ∷ files)

  send_given : Request → SendMessageRequest → List SendFilePayload → Text → H (Unit {0})
  unfolding send_built send_raw payloads
  send_given r req files [] = do
    found ←
        or_else (payloads req files)
          (λ e. bad_request (codes "invalid attachments: " ++ error_text e))
    send_built r req found
  send_given r req files (b ∷ raw) = send_raw r req (b ∷ raw)

  abbrev trimmed : SendMessageRequest → SendMessageRequest
  unfolding to_lower trim_space
  trimmed req = record req {
    from_addr = to_lower (trim_space req.from_addr);
    to_addr = to_lower (trim_space req.to_addr);
    subject = trim_space req.subject;
  }

  unfoldable pub send_parsed : Request → SendMessageRequest → List SendFilePayload → H (Unit {0})
  unfolding send_given is_valid_email trim_space
  send_parsed r req files = do
    require (is_valid_email env req.from_addr && is_valid_email env req.to_addr)
        (bad_request (codes "fromAddr/toAddr are required and must be valid email"))
    send_given r req files (trim_space req.raw_mime)

  send_body : Request → SendBody → H (Unit {0})
  unfolding parse_send_request send_parsed
  send_body r body = do
    parsed ← or_else (parse_send_request body) (λ e. bad_request (error_text e))
    send_parsed r (trimmed parsed.0) parsed.1

  abbrev no_relay : H (Unit {0})
  no_relay = http_error 503 (codes "SMTP_RELAY_ADDR is not configured")

  abbrev limited : Request → H (Unit {0})
  limited r = refuse env r 429 (codes "too many requests") send_audit [] (codes "rate limited")

  unfoldable pub handle_send : Request → SendBody → H (Unit {0})
  unfolding allow_send send_body trim_space text_eq
  handle_send r body = do
    require (text_eq r.method (codes "POST")) method_not_allowed
    allowed ← allow_send r
    require allowed (limited r)
    require (not (is_empty (trim_space c.smtp_relay_addr))) no_relay
    send_body r body
