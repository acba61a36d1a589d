-- ===== src/Handlers/Attachments/Extract.antt =====
-- `extractAttachmentMeta` and `walkMultipartParts` of cmd/mail-admin/app/handlers/service.go. The
-- walk goes into parts that are multipart themselves; the fuel bounds how deep, and a body's length
-- is enough where each part is shorter than the body it is in.
pub mod Walk
pub mod Entries
pub mod Reported
use ucware_mail_server.Base.{
  ℕ, zero, suc, Bool, ◌||◌, not, Option, none, some, List, [], ◌∷◌, ◌++◌, length, if◌then◌else◌,
}
use ucware_mail_server.Text.{Text, codes, is_empty, trim_space, to_lower, has_prefix, equal_fold}
use ucware_mail_server.Http.{AttachmentMeta}
use ucware_mail_server.Handlers.Attachments.{Codec, Part, MediaType}

abbrev pub or_text : Text → Text → Text
or_text [] u = u
or_text (c ∷ t) u = c ∷ t

module _ (codec : Codec) where
  unfoldable pub part_name : Part → Text
  unfolding trim_space
  part_name p =
      or_text
        (trim_space ((codec.parse_media_type p.content_disposition).params (codes "filename")))
        (trim_space p.file_name)

  unfoldable pub part_type : Part → MediaType
  part_type p = codec.parse_media_type (or_text p.content_type (codes "application/octet-stream"))

  unfoldable pub is_multipart : MediaType → Bool
  unfolding has_prefix to_lower
  is_multipart m = has_prefix (to_lower m.media_type) (codes "multipart/")

  -- A part that is not multipart.
  unfoldable pub leaf : Part → List AttachmentMeta
  unfolding part_name part_type equal_fold
  leaf p =
      if equal_fold (codec.parse_media_type p.content_disposition).media_type (codes "attachment")
        || not (is_empty (part_name p))
      then record {
        filename = or_text (part_name p) (codes "attachment.bin");
        content_type = (part_type p).media_type;
        size_bytes = length p.content;
      }
        ∷ []
      else []

  -- Without a boundary there are no parts.
  abbrev pub parts_at : Text → Text → List Part
  parts_at body [] = []
  parts_at body (c ∷ b) = codec.parts body (c ∷ b)

  -- The parts inside a part.
  unfoldable pub inner_parts : Part → List Part
  unfolding part_type
  inner_parts p = parts_at p.content ((part_type p).params (codes "boundary"))

  -- What one part adds, where `inner` is the walk over the parts inside.
  unfoldable pub part_meta : (List Part → List AttachmentMeta) → Part → List AttachmentMeta
  unfolding leaf is_multipart part_type inner_parts
  part_meta inner p = if is_multipart (part_type p) then inner (inner_parts p) else leaf p

  abbrev pub each : (Part → List AttachmentMeta) → List Part → List AttachmentMeta
  each f [] = []
  each f (p ∷ ps) = f p ++ each f ps

  unfoldable pub walk_multipart_parts : ℕ → List Part → List AttachmentMeta
  unfolding part_meta
  walk_multipart_parts zero ps = []
  walk_multipart_parts (suc f) ps = each (part_meta (walk_multipart_parts f)) ps

  walk_body : Text → MediaType → List AttachmentMeta
  unfolding walk_multipart_parts is_multipart
  walk_body body m =
      if m.is_error || not (is_multipart m)
      then []
      else walk_multipart_parts (suc (length body)) (parts_at body (m.params (codes "boundary")))

  walk_message : Option (Text × Text) → List AttachmentMeta
  unfolding walk_body
  walk_message none = []
  walk_message (some ([], body)) = []
  walk_message (some (c ∷ ct, body)) = walk_body body (codec.parse_media_type (c ∷ ct))

  unfoldable pub extract_attachment_meta : Text → List AttachmentMeta
  unfolding walk_message
  extract_attachment_meta raw = walk_message (codec.read_message raw)
