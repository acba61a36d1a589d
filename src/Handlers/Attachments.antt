-- ===== src/Handlers/Attachments.antt =====
-- The attachments of a message to be sent, in cmd/mail-admin/app/handlers/service.go: uploaded with
-- a form, or in base64 in the JSON body. Sizes are natural numbers: a size that is not known is 0.
pub mod Extract
pub mod Bounds
use ucware_mail_server.Base.{
  ℕ, ◌+◌, Bool, true, false, not, ◌||◌, Option, none, some, List, [], ◌∷◌, ◌++◌, ltb, ◌==◌, length,
  if◌then◌else◌,
}
use ucware_mail_server.Text.{Text, codes, text_eq, is_empty, trim_space}
use ucware_mail_server.Text.Numbers.{format_int}
use ucware_mail_server.Text.Path.{base}
use ucware_mail_server.Sql.{Error, failed, Result, ok, err}
use ucware_mail_server.Http.{AttachmentMeta}

pub record SendAttachment : Type 0 where
  pub filename : Text
  pub content_type : Text
  pub content_base64 : Text

-- `multipart.FileHeader`: its `Content-Type`, and what opening and reading it gives.
pub record FileHeader : Type 0 where
  pub filename : Text
  pub size : ℕ
  pub content_type : Text
  pub content : Result Text

-- `opened` is what `Open` leads to, where it is not nil.
pub record SendFilePayload : Type 0 where
  pub filename : Text
  pub content_type : Text
  pub size_bytes : ℕ
  pub data_bytes : Text
  pub opened : Option (Result Text)

-- `mime.ParseMediaType`, with the empty text for a parameter that is missing.
pub record MediaType : Type 0 where
  pub media_type : Text
  pub params : Text → Text
  pub is_error : Bool

-- A part of a multipart body: the headers read of it, `FileName()`, and its content.
pub record Part : Type 0 where
  pub content_disposition : Text
  pub content_type : Text
  pub file_name : Text
  pub content : Text

-- The packages of the Go library: base64, `mime.ParseMediaType`, `mail.ReadMessage` (the
-- `Content-Type` and the body), the parts that `multipart.NewReader` gives of a body until its
-- first error, what `multipart.Writer` puts before the first and a later part and at the end, and
-- the format of a date.
pub record Codec : Type 0 where
  pub decode_base64 : Text → Option Text
  pub encode_base64 : Text → Text
  pub parse_media_type : Text → MediaType
  pub read_message : Text → Option (Text × Text)
  pub parts : Text → Text → List Part
  pub part_head : Text → Bool → List (Text × Text) → Text
  pub parts_end : Text → Text
  pub date_text : ℕ → Text

abbrev pub send_max_attachments : ℕ
send_max_attachments = 100

abbrev pub send_max_attachment_bytes : ℕ
send_max_attachment_bytes = 1073741824

abbrev pub send_max_total_attach_bytes : ℕ
send_max_total_attach_bytes = 5368709120

abbrev pub send_json_max_attachment_bytes : ℕ
send_json_max_attachment_bytes = 10485760

abbrev pub send_json_max_total_attach_bytes : ℕ
send_json_max_total_attach_bytes = 52428800

abbrev pub send_archive_raw_max_bytes : ℕ
send_archive_raw_max_bytes = 26214400

abbrev octet_stream : Text
octet_stream = codes "application/octet-stream"

abbrev pub exceeds : Text → ℕ → Text
exceeds name max =
    codes "attachment " ++ (name ++ (codes " exceeds " ++ (format_int max ++ codes " bytes")))

abbrev pub total_exceeds : ℕ → Text
total_exceeds max = codes "total attachment size exceeds " ++ (format_int max ++ codes " bytes")

abbrev pub too_many : Text
too_many = codes "attachments must be <= " ++ format_int send_max_attachments

abbrev pub cons_payload :
    SendFilePayload → Result (List SendFilePayload) → Result (List SendFilePayload)
cons_payload p (ok ps) = ok (p ∷ ps)
cons_payload p (err e) = err e

uploaded : FileHeader → SendFilePayload
unfolding base trim_space
uploaded h = record {
  filename = base (trim_space h.filename);
  content_type = if is_empty (trim_space h.content_type) then octet_stream else h.content_type;
  size_bytes = h.size;
  data_bytes = [];
  opened = some h.content;
}

-- The loop, with the total so far.
unfoldable pub collect : ℕ → List FileHeader → Result (List SendFilePayload)
unfolding uploaded format_int
collect total [] = ok []
collect total (h ∷ hs) =
    let rest = collect (total + h.size) hs in
    if ltb send_max_attachment_bytes h.size
    then err (failed (exceeds h.filename send_max_attachment_bytes))
    else if ltb send_max_total_attach_bytes (total + h.size)
    then err (failed (total_exceeds send_max_total_attach_bytes))
    else cons_payload (uploaded h) rest

-- The argument is the files of the field `attachments`.
unfoldable pub collect_uploaded_attachments : List FileHeader → Result (List SendFilePayload)
unfolding collect
collect_uploaded_attachments headers =
    if ltb send_max_attachments (length headers) then err (failed too_many) else collect 0 headers

decoded_payload : SendAttachment → Text → SendFilePayload
unfolding base trim_space
decoded_payload it decoded = record {
  filename = base (trim_space it.filename);
  content_type =
      if is_empty (trim_space it.content_type) then octet_stream else trim_space it.content_type;
  size_bytes = length decoded;
  data_bytes = decoded;
  opened = none;
}

-- One round of the loop: the attachment decoded and the new total.
unfoldable pub decode_one : Codec → ℕ → SendAttachment → Result SendFilePayload
unfolding decoded_payload base trim_space text_eq format_int
decode_one codec total it =
    let name = base (trim_space it.filename) in
    if is_empty name || text_eq name (codes ".")
    then err (failed (codes "filename is required"))
    else elim (codec.decode_base64 (trim_space it.content_base64)) [
      | none ↦ err (failed (codes "invalid base64 for " ++ name))
      | some decoded ↦
          if ltb send_json_max_attachment_bytes (length decoded)
          then err (failed (exceeds name send_json_max_attachment_bytes))
          else if ltb send_json_max_total_attach_bytes (total + length decoded)
          then err (failed (total_exceeds send_json_max_total_attach_bytes))
          else ok (decoded_payload it decoded)
    ]

unfoldable pub decode_all : Codec → ℕ → List SendAttachment → Result (List SendFilePayload)
unfolding decode_one
decode_all codec total [] = ok []
decode_all codec total (it ∷ items) = elim (decode_one codec total it) [
  | err e ↦ err e
  | ok p ↦ cons_payload p (decode_all codec (total + p.size_bytes) items)
]

unfoldable pub decode_json_attachments : Codec → List SendAttachment → Result (List SendFilePayload)
unfolding decode_all
decode_json_attachments codec items =
    if ltb send_max_attachments (length items)
    then err (failed too_many)
    else decode_all codec 0 items

abbrev size_of : SendFilePayload → ℕ
size_of f = if ltb 0 f.size_bytes then f.size_bytes else length f.data_bytes

unfoldable pub total_attachment_bytes : List SendFilePayload → ℕ
total_attachment_bytes [] = 0
total_attachment_bytes (f ∷ fs) = size_of f + total_attachment_bytes fs

media_or_default : MediaType → Text
unfolding trim_space
media_or_default m =
    if m.is_error || is_empty (trim_space m.media_type) then octet_stream else m.media_type

unfoldable pub attachment_meta_from_files : Codec → List SendFilePayload → List AttachmentMeta
unfolding media_or_default trim_space
attachment_meta_from_files codec [] = []
attachment_meta_from_files codec (f ∷ fs) =
    let rest = attachment_meta_from_files codec fs in
    if is_empty (trim_space f.filename)
    then rest
    else record {
      filename = f.filename;
      content_type = media_or_default (codec.parse_media_type (trim_space f.content_type));
      size_bytes = size_of f;
    }
      ∷ rest

unfoldable pub validate_file_count : List SendFilePayload → Result (Unit {0})
validate_file_count files =
    if ltb send_max_attachments (length files) then err (failed too_many) else ok tt
