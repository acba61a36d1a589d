-- ===== src/Handlers/Tests.antt =====
-- The service at concrete requests, and the theorems at them.
use ucware_mail_server.Base.{
  ◌≤◌, ◌≡◌, ◌↔◌, ◌==◌, if◌then◌else◌, refl, none, some, true, false, Option, List, [], ◌∷◌, arith,
  length,
}
use ucware_mail_server.Text.{Text, codes, text_eq, to_lower, has_prefix}
use ucware_mail_server.Text.Numbers.{pos}
use ucware_mail_server.Dict.{lookup}
use ucware_mail_server.Sql.{ok}
use ucware_mail_server.Http.{Request, AttachmentMeta}
use ucware_mail_server.Http.Ends.{Ends, Never}
use ucware_mail_server.Handlers.Attachments.{
  SendAttachment, SendFilePayload, Codec, Part, decode_json_attachments, total_attachment_bytes,
  send_max_attachments, send_json_max_total_attach_bytes,
}
use ucware_mail_server.Handlers.Attachments.Bounds.{AllDecoded, decode_json_attachments-Decoded}
use ucware_mail_server.Handlers.Attachments.Extract.{extract_attachment_meta}
use ucware_mail_server.Handlers.Attachments.Extract.Walk.{Shorter}
use ucware_mail_server.Handlers.Attachments.Extract.Reported.{Attached, extract_attachment_meta_iff}
use ucware_mail_server.Handlers.Attachments.Extract.Entries.{In}
use ucware_mail_server.Handlers.Mime.{write_chunks}
use ucware_mail_server.Handlers.Mime.Breaks.{Broken, write_chunks-Broken}
use ucware_mail_server.Handlers.State.{Config, Env, Service, new_service}
use ucware_mail_server.Handlers.Users.{
  CreateUserRequest, create_user, handle_user_by_email, handle_sync,
}
use ucware_mail_server.Handlers.Users.Synced.{Q, changes-Synced}
use ucware_mail_server.Handlers.Send.{SendBody, handle_send}
use ucware_mail_server.Handlers.Send.Accounted.{AnswerTo, handle_send-AnswerTo}

-- A codec whose bodies have one part, the text behind the first byte, which is multipart if that byte
-- is `m`.
abbrev parts : Text → Text → List Part
parts [] b = []
parts (c ∷ body) b =
    record {
      content_disposition = if c == b'm' then [] else codes "Attachment";
      content_type = if c == b'm' then codes "multipart/mixed" else codes "text/plain";
      file_name = [];
      content = body;
    }
    ∷ []

abbrev codec : Codec
codec = record {
  decode_base64 = λ t. some t;
  encode_base64 = λ t. t;
  parse_media_type = λ t. record {
    media_type = t;
    params = λ p. if text_eq p (codes "boundary") then codes "b" else [];
    is_error = false;
  };
  read_message = λ t. some (codes "multipart/mixed", t);
  parts = parts;
  part_head = λ b first hs. b;
  parts_end = λ b. b;
  date_text = λ t. [];
}

parts-Shorter : (body b : Text) → Shorter (length body) (parts body b)
parts-Shorter [] b = tt
parts-Shorter (c ∷ body) b = (omega arith, tt)

-- The attachment lies in a part that is multipart.
abbrev nested : AttachmentMeta
nested = record {
  filename = codes "attachment.bin";
  content_type = codes "text/plain";
  size_bytes = 2;
}

nested_test : extract_attachment_meta codec (codes "mxyz") ≡ nested ∷ []
unfolding extract_attachment_meta
nested_test = refl

extract_attachment_meta_iff_example :
    In nested (extract_attachment_meta codec (codes "mxyz"))
    ↔ Attached codec (parts (codes "mxyz") (codes "b")) nested
unfolding has_prefix to_lower text_eq
extract_attachment_meta_iff_example =
    extract_attachment_meta_iff codec parts-Shorter (codes "mxyz") (codes "ultipart/mixed")
      (codes "mxyz") b'm' refl refl refl nested

write_chunks-Broken_example :
    Broken 0 (codes "abcd") (write_chunks 0 (codes "abc" ∷ codes "d" ∷ [])).0
write_chunks-Broken_example = write_chunks-Broken (codes "abc" ∷ codes "d" ∷ [])

abbrev items : List SendAttachment
items = record { filename = codes "d/a.txt"; content_type = []; content_base64 = codes "xyz" } ∷ []

abbrev decoded : List SendFilePayload
decoded =
    record {
      filename = codes "a.txt";
      content_type = codes "application/octet-stream";
      size_bytes = 3;
      data_bytes = codes "xyz";
      opened = none;
    }
    ∷ []

decode_json_attachments-Decoded_example :
    AllDecoded codec items decoded
    × (length decoded ≤ send_max_attachments)
    × (total_attachment_bytes decoded ≤ send_json_max_total_attach_bytes)
unfolding decode_json_attachments
decode_json_attachments-Decoded_example = decode_json_attachments-Decoded codec items decoded refl

abbrev env : Env
env = record {
  fault = λ n. none;
  disk_fault = λ n. none;
  smtp_fault = λ n. none;
  offers_auth = true;
  sql = record {
    fault = λ n. none;
    new_id = λ n. n ∷ [];
    order_mailboxes = λ bs. bs;
    order_messages = λ ms. ms;
  };
  clock = λ n. n;
  row_clock = λ n. n;
  bcrypt_hash = λ p. ok p;
  parse_address = λ t. some t;
  split_host = λ t. some t;
  parse_time = λ t. some 0;
  boundary = λ n. codes "b";
  codec = codec;
}

abbrev config : Config
config = record {
  export_config = record { mail_root = codes "/m"; mail_uid = pos 1; mail_gid = pos 1 };
  archive_enabled = true;
  archive_auto_route_enabled = false;
  archive_inbound_mailbox = codes "INBOX";
  archive_outbound_mailbox = codes "SENT";
  smtp_relay_addr = codes "relay:25";
  smtp_username = [];
  smtp_password = [];
  send_rate_limit_per_min = 0;
}

abbrev service : Service
unfolding new_service
service =
    new_service config
      (record {
        users = [];
        admin_users = [];
        audit_logs = [];
        refresh_tokens = [];
        totp_challenges = [];
        oauth2_states = [];
        statements = 0;
      })
      (record { mailboxes = []; messages = []; statements = 0; ids = 0 })
      (record {
        dovecot_users = none;
        postfix_mailbox_maps = none;
        postfix_domains = none;
        calls = 0;
      })

abbrev request : Request
request = record {
  method = codes "POST";
  path = codes "/v1/send";
  authorization = [];
  forwarded_for = [];
  real_ip = [];
  remote_addr = codes "10.0.0.1";
  user_agent = [];
  actor = codes "root@x";
  role = codes "admin";
}

abbrev new_user : Option CreateUserRequest
new_user = some (record { email = codes "al@x"; password = codes "0123456789" })

changes-Synced_example :
    Ends Never (Q env config) (create_user env config request new_user service)
    × Ends Never (Q env config) (handle_user_by_email env config request service)
    × Ends Never (Q env config) (handle_sync env config request service)
changes-Synced_example = changes-Synced env config request new_user service

abbrev mail : SendBody
mail = record {
  content_type = codes "application/json";
  form = none;
  json = some (record {
    from_addr = codes "al@x";
    to_addr = codes "bo@y";
    subject = codes "hi";
    text_body = codes "hello";
    raw_mime = [];
    mailbox_id = [];
    attachments = [];
  });
}

handle_send-AnswerTo_example :
    Ends Never
      (AnswerTo env config request mail service)
      (handle_send env config request mail service)
handle_send-AnswerTo_example = handle_send-AnswerTo env config request mail service

-- The message is sent and archived.
relayed : length (handle_send env config request mail service).1.relay ≡ 1
unfolding handle_send service lookup
relayed = refl

archived : length (handle_send env config request mail service).1.archive.messages ≡ 1
unfolding handle_send service lookup
archived = refl
