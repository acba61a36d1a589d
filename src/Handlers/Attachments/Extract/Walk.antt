-- ===== src/Handlers/Attachments/Extract/Walk.antt =====
-- `walkMultipartParts` of cmd/mail-admin/app/handlers/service.go comes to an end.
use ucware_mail_server.Base.{
  ℕ, zero, suc, ◌<◌, ◌≤◌, ◌≡◌, true, false, inl, inr, List, [], ◌∷◌, ◌++◌, length, arith, some,
  Bool-cases,
}
use ucware_mail_server.Text.{Text, codes}
use ucware_mail_server.Http.{AttachmentMeta}
use ucware_mail_server.Handlers.Attachments.{Codec, Part}
use ucware_mail_server.Handlers.Attachments.Extract.{
  part_type, is_multipart, leaf, parts_at, inner_parts, part_meta, each, walk_multipart_parts,
  extract_attachment_meta, walk_message, walk_body,
}

-- The walk without fuel: what it finds in a list of parts.
pub data Walked (codec : Codec) : List Part → List AttachmentMeta → Type 0 where
  at_end : Walked codec [] []
  into :
      {p : Part} {ps : List Part} {ms ns : List AttachmentMeta}
      → is_multipart codec (part_type codec p) ≡ true
      → Walked codec (inner_parts codec p) ms
      → Walked codec ps ns
      → Walked codec (p ∷ ps) (ms ++ ns)
  over :
      {p : Part} {ps : List Part} {ns : List AttachmentMeta}
      → is_multipart codec (part_type codec p) ≡ false
      → Walked codec ps ns
      → Walked codec (p ∷ ps) (leaf codec p ++ ns)

abbrev pub Shorter : ℕ → List Part → Type 0
Shorter n [] = Unit
Shorter n (p ∷ ps) = (length p.content < n) × Shorter n ps

Shorter-le : (m n : ℕ) (ps : List Part) → m ≤ n → Shorter m ps → Shorter n ps
Shorter-le m n [] h k = tt
Shorter-le m n (p ∷ ps) h (k, ks) = (omega arith, Shorter-le m n ps h ks)

module _ (codec : Codec)
    (shrinks : (body b : Text) → Shorter (length body) (codec.parts body b)) where
  parts_at-Shorter : (body b : Text) → Shorter (length body) (parts_at codec body b)
  parts_at-Shorter body [] = tt
  parts_at-Shorter body (c ∷ b) = shrinks body (c ∷ b)

  inner_parts-Shorter : (p : Part) → Shorter (length p.content) (inner_parts codec p)
  unfolding inner_parts
  inner_parts-Shorter p = parts_at-Shorter p.content ((part_type codec p).params (codes "boundary"))

  each-Walked :
      (f : ℕ) (ps : List Part)
      → ((qs : List Part) → Shorter f qs → Walked codec qs (walk_multipart_parts codec f qs))
      → Shorter (suc f) ps
      → Walked codec ps (each codec (part_meta codec (walk_multipart_parts codec f)) ps)
  unfolding part_meta
  each-Walked f [] w h = at_end
  each-Walked f (p ∷ ps) w (h, hs) = elim (Bool-cases (is_multipart codec (part_type codec p))) [
    | inl e ↦ rw e (
        into e
          (w (inner_parts codec p) (
            Shorter-le (length p.content) f (inner_parts codec p) (omega arith)
              (inner_parts-Shorter p)))
          (each-Walked f ps w hs))
    | inr e ↦ rw e (over e (each-Walked f ps w hs))
  ]

  walk_multipart_parts-Walked :
      (f : ℕ) (ps : List Part) → Shorter f ps → Walked codec ps (walk_multipart_parts codec f ps)
  unfolding walk_multipart_parts
  walk_multipart_parts-Walked zero [] h = at_end
  walk_multipart_parts-Walked zero (p ∷ ps) (h, _) = absurd (omega arith)
  walk_multipart_parts-Walked (suc f) ps h = each-Walked f ps (walk_multipart_parts-Walked f) h

  -- Where each part of a body is shorter than the body, the attachments reported for a multipart
  -- message are those of the walk without fuel over the parts at its boundary.
  pub extract_attachment_meta-Walked :
      (raw ct body : Text) (c : ℕ)
      → codec.read_message raw ≡ some (c ∷ ct, body)
      → (codec.parse_media_type (c ∷ ct)).is_error ≡ false
      → is_multipart codec (codec.parse_media_type (c ∷ ct)) ≡ true
      → Walked codec
          (parts_at codec body ((codec.parse_media_type (c ∷ ct)).params (codes "boundary")))
          (extract_attachment_meta codec raw)
  unfolding extract_attachment_meta walk_message walk_body
  extract_attachment_meta-Walked raw ct body c read sound multi =
      let b = (codec.parse_media_type (c ∷ ct)).params (codes "boundary") in
      rw (read, sound, multi)
        (walk_multipart_parts-Walked (suc (length body)) (parts_at codec body b) (
          Shorter-le (length body) (suc (length body)) (parts_at codec body b) (omega arith)
            (parts_at-Shorter body b)))
