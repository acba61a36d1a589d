-- ===== src/Handlers/Attachments/Extract/Reported.antt =====
-- Which attachments `extractAttachmentMeta` of cmd/mail-admin/app/handlers/service.go reports.
use ucware_mail_server.Base.{
  ℕ, Bool, ◌≡◌, ◌≢◌, ◌⊎◌, ◌↔◌, ◌||◌, not, refl, ap, ◌∙◌, sym, inl, inr, true, false, List, [], ◌∷◌,
  length, arith, some, Bool-cases,
}
use ucware_mail_server.Text.{
  Text, codes, is_empty, to_lower, trim_space, has_prefix, text_eq, equal_fold,
}
use ucware_mail_server.Text.Equality.{text_eq_iff}
use ucware_mail_server.Http.{AttachmentMeta}
use ucware_mail_server.Handlers.Attachments.{Codec, Part, MediaType}
use ucware_mail_server.Handlers.Attachments.Extract.{
  or_text, part_name, part_type, is_multipart, leaf, parts_at, inner_parts, extract_attachment_meta,
}
use ucware_mail_server.Handlers.Attachments.Extract.Walk.{
  Walked, at_end, into, over, Shorter, extract_attachment_meta-Walked,
}
use ucware_mail_server.Handlers.Attachments.Extract.Entries.{
  In, In-append, OrElse, or_text-OrElse, OrElse-or_text, ne_of_is_empty, is_empty_of_ne,
}

module _ (codec : Codec) where
  -- The media type of a part, which is that of bytes where the part names none.
  abbrev type_of : Text → MediaType
  type_of [] = codec.parse_media_type (codes "application/octet-stream")
  type_of (c ∷ t) = codec.parse_media_type (c ∷ t)

  abbrev pub Multipart : Part → Type 0
  Multipart p =
      has_prefix (to_lower (type_of p.content_type).media_type) (codes "multipart/") ≡ true

  abbrev pub Single : Part → Type 0
  Single p = has_prefix (to_lower (type_of p.content_type).media_type) (codes "multipart/") ≡ false

  -- The parts that a part's body has at its boundary, if it names one.
  abbrev parts_in : Part → List Part
  parts_in p = parts_at codec p.content ((type_of p.content_type).params (codes "boundary"))

  -- A part that is not multipart, among these or at any depth inside those that are.
  pub data Within (p : Part) : List Part → Type 0 where
    here : {ps : List Part} → Single p → Within p (p ∷ ps)
    later : {q : Part} {ps : List Part} → Within p ps → Within p (q ∷ ps)
    inside : {q : Part} {ps : List Part} → Multipart q → Within p (parts_in q) → Within p (q ∷ ps)

  -- The part is an attachment by its disposition or for its name, which is the one in the
  -- disposition or else that of the part, and this is its entry.
  pub record IsAttachment (p : Part) (m : AttachmentMeta) : Type 0 where
    pub name : Text
    pub named :
        OrElse
          (trim_space ((codec.parse_media_type p.content_disposition).params (codes "filename")))
          (trim_space p.file_name)
          name
    pub marked :
        (to_lower (codec.parse_media_type p.content_disposition).media_type ≡ codes "attachment")
        ⊎ (name ≢ [])
    pub filename : OrElse name (codes "attachment.bin") m.filename
    pub content_type : m.content_type ≡ (type_of p.content_type).media_type
    pub size_bytes : m.size_bytes ≡ length p.content

  type_of-or_text :
      (t : Text) → codec.parse_media_type (or_text t (codes "application/octet-stream")) ≡ type_of t
  type_of-or_text [] = refl
  type_of-or_text (c ∷ t) = refl

  part_type-type_of : (p : Part) → part_type codec p ≡ type_of p.content_type
  unfolding part_type
  part_type-type_of p = type_of-or_text p.content_type

  is_multipart-eq :
      (p : Part)
      → has_prefix (to_lower (type_of p.content_type).media_type) (codes "multipart/")
        ≡ is_multipart codec (part_type codec p)
  unfolding is_multipart
  is_multipart-eq p =
      ap (λ t. has_prefix (to_lower t.media_type) (codes "multipart/")) (sym (part_type-type_of p))

  inner_parts-parts_in : (p : Part) → inner_parts codec p ≡ parts_in p
  unfolding inner_parts
  inner_parts-parts_in p =
      ap (λ t. parts_at codec p.content (t.params (codes "boundary"))) (part_type-type_of p)

  abbrev entry : Part → AttachmentMeta
  entry p = record {
    filename = or_text (part_name codec p) (codes "attachment.bin");
    content_type = (part_type codec p).media_type;
    size_bytes = length p.content;
  }

  abbrev disposition : Part → Text
  disposition p = (codec.parse_media_type p.content_disposition).media_type

  abbrev reported : Part → Bool
  reported p = equal_fold (disposition p) (codes "attachment") || not (is_empty (part_name codec p))

  reported_of :
      (p : Part)
      → (to_lower (disposition p) ≡ codes "attachment") ⊎ (part_name codec p ≢ [])
      → reported p ≡ true
  unfolding equal_fold to_lower
  reported_of p (inl e) =
      let same = (text_eq_iff (to_lower (disposition p)) (codes "attachment")).1 e in
      ground (arith, same)
  reported_of p (inr n) = let given = is_empty_of_ne (part_name codec p) n in ground (arith, given)

  marked_of :
      (p : Part)
      → reported p ≡ true
      → (to_lower (disposition p) ≡ codes "attachment") ⊎ (part_name codec p ≢ [])
  unfolding equal_fold to_lower
  marked_of p h = elim (Bool-cases (text_eq (to_lower (disposition p)) (codes "attachment"))) [
    | inl e ↦ inl ((text_eq_iff (to_lower (disposition p)) (codes "attachment")).0 e)
    | inr e ↦ inr (ne_of_is_empty (part_name codec p) (ground (arith, e, h)))
  ]

  part_name-OrElse :
      (p : Part)
      → OrElse
          (trim_space ((codec.parse_media_type p.content_disposition).params (codes "filename")))
          (trim_space p.file_name)
          (part_name codec p)
  unfolding part_name
  part_name-OrElse p = or_text-OrElse _ _

  entry-IsAttachment : (p : Part) → reported p ≡ true → IsAttachment p (entry p)
  entry-IsAttachment p h = record {
    name = part_name codec p;
    named = part_name-OrElse p;
    marked = marked_of p h;
    filename = or_text-OrElse (part_name codec p) (codes "attachment.bin");
    content_type = ap (λ t. t.media_type) (part_type-type_of p);
    size_bytes = refl;
  }

  name_of-IsAttachment :
      (p : Part) (m : AttachmentMeta) (a : IsAttachment p m) → a.name ≡ part_name codec p
  unfolding part_name
  name_of-IsAttachment p m a = OrElse-or_text _ _ _ a.named

  entry_of-IsAttachment : (p : Part) (m : AttachmentMeta) → IsAttachment p m → m ≡ entry p
  entry_of-IsAttachment p m a =
      let filename =
        OrElse-or_text a.name (codes "attachment.bin") m.filename a.filename
        ∙ ap (λ n. or_text n (codes "attachment.bin")) (name_of-IsAttachment p m a) in
      let content_type = a.content_type ∙ ap (λ t. t.media_type) (sym (part_type-type_of p)) in
      λ i. record {
        filename = filename i;
        content_type = content_type i;
        size_bytes = a.size_bytes i;
      }

  reported_of-IsAttachment : (p : Part) (m : AttachmentMeta) → IsAttachment p m → reported p ≡ true
  reported_of-IsAttachment p m a = elim a.marked [
    | inl d ↦ reported_of p (inl d)
    | inr n ↦ reported_of p (inr (λ z. n (name_of-IsAttachment p m a ∙ z)))
  ]

  leaf-IsAttachment : (p : Part) (m : AttachmentMeta) → In m (leaf codec p) ↔ IsAttachment p m
  unfolding leaf
  leaf-IsAttachment p m = elim (Bool-cases (reported p)) [
    | inl e ↦ rw e (
      λ h. elim h [ inl k ↦ rw k (entry-IsAttachment p e) | inr x ↦ absurd x ],
      λ a. inl (entry_of-IsAttachment p m a),
    )
    | inr e ↦ rw e (λ x. absurd x, λ a. absurd (ground (arith, e, reported_of-IsAttachment p m a)))
  ]

  abbrev pub Attached : List Part → AttachmentMeta → Type 0
  Attached ps m = (p : Part) × Within p ps × IsAttachment p m

  Walked-Attached :
      {ps : List Part} {ms : List AttachmentMeta} (m : AttachmentMeta)
      → Walked codec ps ms
      → In m ms
      → Attached ps m
  Walked-Attached m at_end h = absurd h
  Walked-Attached m (into {p} {ps} {ms} {ns} e inner rest) h = elim ((In-append m ms ns).0 h) [
    | inl k ↦
        let (q, w, a) = Walked-Attached m inner k in
        (q, inside (is_multipart-eq p ∙ e) (rw (inner_parts-parts_in p) at w), a)
    | inr k ↦ let (q, w, a) = Walked-Attached m rest k in (q, later w, a)
  ]
  Walked-Attached m (over {p} {ps} {ns} e rest) h = elim ((In-append m (leaf codec p) ns).0 h) [
    | inl k ↦ (p, here (is_multipart-eq p ∙ e), (leaf-IsAttachment p m).0 k)
    | inr k ↦ let (q, w, a) = Walked-Attached m rest k in (q, later w, a)
  ]

  Within-In :
      {ps : List Part} {ms : List AttachmentMeta} (m : AttachmentMeta) (q : Part)
      → Walked codec ps ms
      → Within q ps
      → IsAttachment q m
      → In m ms
  Within-In m q at_end w a = elim w [ ]
  Within-In m q (into {p} {ps} {ms} {ns} e inner rest) (here k) a =
      let same = is_multipart-eq p ∙ e in absurd (ground (arith, k, same))
  Within-In m q (into {p} {ps} {ms} {ns} e inner rest) (later w) a =
      (In-append m ms ns).1 (inr (Within-In m q rest w a))
  Within-In m q (into {p} {ps} {ms} {ns} e inner rest) (inside k w) a =
      (In-append m ms ns).1 (inl (Within-In m q inner (rw (sym (inner_parts-parts_in p)) at w) a))
  Within-In m q (over {p} {ps} {ns} e rest) (here k) a =
      (In-append m (leaf codec p) ns).1 (inl ((leaf-IsAttachment p m).1 a))
  Within-In m q (over {p} {ps} {ns} e rest) (later w) a =
      (In-append m (leaf codec p) ns).1 (inr (Within-In m q rest w a))
  Within-In m q (over {p} {ps} {ns} e rest) (inside k w) a =
      let same = is_multipart-eq p ∙ e in absurd (ground (arith, k, same))

-- Where each part of a body is shorter than the body, what is reported for a multipart message are
-- exactly the entries of the parts that are attachments, by their disposition or for their name,
-- among the parts at its boundary and at any depth inside those that are multipart themselves.
pub extract_attachment_meta_iff :
    (codec : Codec)
    → ((body b : Text) → Shorter (length body) (codec.parts body b))
    → (raw ct body : Text) (c : ℕ) → codec.read_message raw ≡ some (c ∷ ct, body)
    → (codec.parse_media_type (c ∷ ct)).is_error ≡ false
    → has_prefix (to_lower (codec.parse_media_type (c ∷ ct)).media_type) (codes "multipart/") ≡ true
    → (m : AttachmentMeta)
    → In m (extract_attachment_meta codec raw)
      ↔ Attached codec
          (parts_at codec body ((codec.parse_media_type (c ∷ ct)).params (codes "boundary")))
          m
unfolding is_multipart
extract_attachment_meta_iff codec shrinks raw ct body c read sound multi m =
    let walked = extract_attachment_meta-Walked codec shrinks raw ct body c read sound multi in
    (λ h. Walked-Attached codec m walked h, λ (q, w, a). Within-In codec m q walked w a)
