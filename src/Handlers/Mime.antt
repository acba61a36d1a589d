-- ===== src/Handlers/Mime.antt =====
-- The messages that cmd/mail-admin/app/handlers/service.go writes: `buildRawMIME`,
-- `writeMultipartMIME` and the breaks that `base64LineWriter` puts into base64.
pub mod Breaks
use ucware_mail_server.Base.{
  ℕ, ◌+◌, Bool, true, false, Option, none, some, List, [], ◌∷◌, ◌++◌, ltb, ◌==◌, length, take,
  if◌then◌else◌,
}
use ucware_mail_server.Text.{Text, codes, is_empty, trim_space}
use ucware_mail_server.Text.Lines.{join}
use ucware_mail_server.Text.Numbers.{format_int}
use ucware_mail_server.Sql.{Error, failed, Result, ok, err}
use ucware_mail_server.Handlers.Attachments.{
  SendFilePayload, Codec, exceeds, total_exceeds, send_max_attachment_bytes,
  send_max_total_attach_bytes,
}

abbrev pub crlf : Text
crlf = codes "\r\n"

-- `Write`, on a writer that does not fail: what goes to the writer below, and the new `n`.
unfoldable pub write_base64 : ℕ → Text → Text × ℕ
write_base64 n [] = ([], n)
write_base64 n (b ∷ p) =
    let rest = write_base64 (if n == 76 then 1 else n + 1) p in
    (if n == 76 then crlf ++ (b ∷ rest.0) else b ∷ rest.0, rest.1)

-- Several calls of `Write`.
unfoldable pub write_chunks : ℕ → List Text → Text × ℕ
unfolding write_base64
write_chunks n [] = ([], n)
write_chunks n (p ∷ ps) =
    let first = write_base64 n p in
    let rest = write_chunks first.1 ps in (first.0 ++ rest.0, rest.1)

unfoldable pub build_raw_mime : Codec → ℕ → Text → Text → Text → Text → Text
unfolding join
build_raw_mime codec now from to subject body = join crlf (
    (codes "From: " ++ from)
    ∷ (codes "To: " ++ to)
    ∷ (codes "Subject: " ++ subject)
    ∷ (codes "Date: " ++ codec.date_text now)
    ∷ codes "MIME-Version: 1.0"
    ∷ codes "Content-Type: text/plain; charset=utf-8"
    ∷ codes "Content-Transfer-Encoding: 8bit"
    ∷ []
    ∷ body
    ∷ [])

-- `openSendFilePayload` with the reading of what it opens.
unfoldable pub open_send_file_payload : SendFilePayload → Result Text
open_send_file_payload f = elim f.opened [ none ↦ ok f.data_bytes | some r ↦ r ]

-- What a writer has been given, and how the writing ended.
pub record Written : Type 0 where
  pub out : Text
  pub outcome : Result (Unit {0})

abbrev pub after : Text → Written → Written
after t w = record { out = t ++ w.out; outcome = w.outcome }

module _ (codec : Codec) (boundary : Text) where
  unfoldable pub file_head : SendFilePayload → Text
  file_head f = codec.part_head boundary false (
      (codes "Content-Type", f.content_type ++ (codes "; name=\"" ++ (f.filename ++ codes "\"")))
      ∷ (codes "Content-Disposition", codes "attachment; filename=\"" ++ (f.filename ++ codes "\""))
      ∷ (codes "Content-Transfer-Encoding", codes "base64")
      ∷ [])

  -- One attachment, of which the limited reader gives at most one byte above the limit.
  unfoldable pub file_part : SendFilePayload → Text → Text
  unfolding file_head write_base64
  file_part f content =
      file_head f
      ++ (write_base64 0 (codec.encode_base64 (take (send_max_attachment_bytes + 1) content))).0

  -- After an attachment with the new total: the limits, and then the others.
  abbrev pub within : SendFilePayload → ℕ → ℕ → Written → Written
  within f n total rest =
      if ltb send_max_attachment_bytes n
      then record {
        out = [];
        outcome = err (failed (exceeds f.filename send_max_attachment_bytes));
      }
      else if ltb send_max_total_attach_bytes total
      then record { out = []; outcome = err (failed (total_exceeds send_max_total_attach_bytes)) }
      else rest

  abbrev pub copied : Text → ℕ
  copied content = length (take (send_max_attachment_bytes + 1) content)

  unfoldable pub write_files : ℕ → List SendFilePayload → Written
  unfolding file_part file_head open_send_file_payload trim_space format_int
  write_files total [] = record { out = codec.parts_end boundary; outcome = ok tt }
  write_files total (f ∷ fs) = elim (is_empty (trim_space f.filename)) [
    | true ↦ write_files total fs
    | false ↦ elim (open_send_file_payload f) [
      | err e ↦ record { out = file_head f; outcome = err e }
      | ok content ↦ after (file_part f content) (
          within f (copied content) (total + copied content)
            (write_files (total + copied content) fs))
    ]
  ]

  unfoldable pub write_multipart_mime :
      ℕ → Text → Text → Text → Text → List SendFilePayload → Written
  unfolding write_files
  write_multipart_mime now from to subject body files =
      after
        (codes "From: "
          ++ (from
              ++ (crlf
                  ++ (codes "To: "
                      ++ (to
                          ++ (crlf
                              ++ (codes "Subject: "
                                  ++ (subject
                                      ++ (crlf
                                          ++ (codes "Date: "
                                              ++ (codec.date_text now
                                                  ++ (crlf
                                                      ++ (codes
                                                            "MIME-Version: 1.0\r\nContent-Type: multipart/mixed; boundary=\""
                                                          ++ (boundary
                                                            ++ (codes "\"\r\n\r\n"
                                                            ++ (codec.part_head boundary true (
                                                            (
                                                            codes "Content-Type",
                                                            codes "text/plain; charset=utf-8",
                                                            )
                                                            ∷ (
                                                            codes "Content-Transfer-Encoding",
                                                            codes "8bit",
                                                            )
                                                            ∷ [])
                                                            ++ body))))))))))))))))
        (write_files 0 files)

  build_result : Written → Result Text
  build_result w = elim w.outcome [ ok _ ↦ ok w.out | err e ↦ err e ]

  unfoldable pub build_multipart_mime :
      ℕ → Text → Text → Text → Text → List SendFilePayload → Result Text
  unfolding write_multipart_mime build_result
  build_multipart_mime now from to subject body files =
      build_result (write_multipart_mime now from to subject body files)
