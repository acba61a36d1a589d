-- ===== src/Handlers/Attachments/Bounds.antt =====
-- What the checks of `decodeJSONAttachments` in cmd/mail-admin/app/handlers/service.go leave.
use ucware_mail_server.Base.{
  ℕ, ◌+◌, ◌≤◌, ◌≡◌, ◌||◌, refl, false, inl, inr, some, List, [], ◌∷◌, length, ltb, arith,
  Bool-cases, Option-cases,
}
use ucware_mail_server.Text.{codes, is_empty, text_eq, trim_space}
use ucware_mail_server.Text.Path.{base}
use ucware_mail_server.Sql.{ok, Result-cases}
use ucware_mail_server.Handlers.Attachments.{
  SendAttachment, SendFilePayload, Codec, decode_one, decode_all, decode_json_attachments,
  decoded_payload, total_attachment_bytes, send_max_attachments, send_json_max_attachment_bytes,
  send_json_max_total_attach_bytes,
}

-- What an attachment is decoded to.
pub record Decoded (codec : Codec) (it : SendAttachment) (p : SendFilePayload) : Type 0 where
  pub decodes : codec.decode_base64 (trim_space it.content_base64) ≡ some p.data_bytes
  pub same_name : p.filename ≡ base (trim_space it.filename)
  pub named : is_empty p.filename ≡ false
  pub not_dot : text_eq p.filename (codes ".") ≡ false
  pub same_size : p.size_bytes ≡ length p.data_bytes
  pub small : p.size_bytes ≤ send_json_max_attachment_bytes

abbrev pub AllDecoded : Codec → List SendAttachment → List SendFilePayload → Type 0
AllDecoded codec [] [] = Unit
AllDecoded codec (it ∷ items) (p ∷ ps) = Decoded codec it p × AllDecoded codec items ps
AllDecoded codec _ _ = ⊥

eq_of_ok : {A : Type 0} (a b : A) → ok a ≡ ok b → a ≡ b
eq_of_ok a b h = cc

module _ (codec : Codec) where
  decode_one-Decoded :
      (total : ℕ) (it : SendAttachment) (p : SendFilePayload)
      → decode_one codec total it ≡ ok p
      → Decoded codec it p × (total + p.size_bytes ≤ send_json_max_total_attach_bytes)
  unfolding decode_one decoded_payload
  decode_one-Decoded total it p h =
      let name = base (trim_space it.filename) in
      elim (Bool-cases (is_empty name || text_eq name (codes "."))) [
        | inl e ↦ absurd (ground (arith, rw e at h))
        | inr e ↦ elim (Option-cases (codec.decode_base64 (trim_space it.content_base64))) [
          | inl f ↦ absurd (ground (arith, rw (e, f) at h))
          | inr (decoded, f) ↦
              elim (Bool-cases (ltb send_json_max_attachment_bytes (length decoded))) [
                | inl g ↦ absurd (ground (arith, rw (e, f, g) at h))
                | inr g ↦
                    elim (Bool-cases
                      (ltb send_json_max_total_attach_bytes (total + length decoded))) [
                        | inl k ↦ absurd (ground (arith, rw (e, f, g, k) at h))
                        | inr k ↦
                            let same =
                              eq_of_ok (decoded_payload it decoded) p (rw (e, f, g, k) at h) in
                            rw (← same) (
                              record {
                                decodes = f;
                                same_name = refl;
                                named = ground (arith, e);
                                not_dot = ground (arith, e);
                                same_size = refl;
                                small = ground (arith, g);
                              },
                              ground (arith, k),
                            )
                      ]
              ]
        ]
      ]

  decode_all-Decoded :
      (total : ℕ) (items : List SendAttachment) (ps : List SendFilePayload)
      → total ≤ send_json_max_total_attach_bytes
      → decode_all codec total items ≡ ok ps
      → AllDecoded codec items ps
        × (length ps ≡ length items)
        × (total + total_attachment_bytes ps ≤ send_json_max_total_attach_bytes)
  unfolding decode_all total_attachment_bytes
  decode_all-Decoded total [] ps b h =
      let same = eq_of_ok [] ps h in rw (← same) (tt, refl, omega arith)
  decode_all-Decoded total (it ∷ items) ps b h = elim (Result-cases (decode_one codec total it)) [
    | inr (e, f) ↦ absurd (ground (arith, rw (f, decode_all) at h))
    | inl (p, f) ↦
        let (d, t) = decode_one-Decoded total it p f in
        elim (Result-cases (decode_all codec (total + p.size_bytes) items)) [
          | inr (e, g) ↦ absurd (ground (arith, rw (f, g, decode_all) at h))
          | inl (qs, g) ↦
              let (ds, l, u) = decode_all-Decoded (total + p.size_bytes) items qs t g in
              let same = eq_of_ok (p ∷ qs) ps (rw (f, g, decode_all) at h) in
              rw (← same) ((d, ds), ground (arith, l), ground (arith, u, d.same_size))
        ]
  ]

  -- Attachments of the JSON body that are accepted are at most 100, of at most 10 MB each and 50 MB
  -- together; each has the bytes that its base64 stands for, under the last element of its name,
  -- which is neither empty nor a dot.
  pub decode_json_attachments-Decoded :
      (items : List SendAttachment) (ps : List SendFilePayload)
      → decode_json_attachments codec items ≡ ok ps
      → AllDecoded codec items ps
        × (length ps ≤ send_max_attachments)
        × (total_attachment_bytes ps ≤ send_json_max_total_attach_bytes)
  unfolding decode_json_attachments
  decode_json_attachments-Decoded items ps h =
      elim (Bool-cases (ltb send_max_attachments (length items))) [
        | inl e ↦ absurd (ground (arith, rw e at h))
        | inr e ↦
            let (ds, l, u) = decode_all-Decoded 0 items ps (omega arith) (rw e at h) in
            (ds, ground (arith, l, e), omega (arith, u))
      ]
