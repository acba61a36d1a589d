-- ===== src/Handlers/Send/Accounted/Answers.antt =====
-- The answers of `HandleSend` in cmd/mail-admin/app/handlers/service.go to a request that has been
-- read.
use ucware_mail_server.Base.{◌+◌, inl, arith, Bool, true, false, ◌&&◌, ◌++◌, List, [], ◌∷◌}
use ucware_mail_server.Text.{Text, codes, trim_space}
use ucware_mail_server.Sql.{Error, Result, ok, err, Exec}
use ucware_mail_server.Http.{Request, Response, ◌>>=◌}
use ucware_mail_server.Http.Ends.{Ends, bind-Ends, Never}
use ucware_mail_server.Handlers.Attachments.{
  SendFilePayload, attachment_meta_from_files, validate_file_count,
}
use ucware_mail_server.Handlers.Attachments.Extract.{extract_attachment_meta}
use ucware_mail_server.Handlers.Mime.{build_raw_mime}
use ucware_mail_server.Handlers.Smtp.{client, send_multipart_smtp, send_mail}
use ucware_mail_server.Handlers.Smtp.Accepted.{
  Quiet, Accepted, OnOk, send_mail-Accepted, send_multipart_smtp-Accepted,
}
use ucware_mail_server.Handlers.State.{
  Config, Env, Service, H, or_else, require, bad_request, error_text, is_valid_email,
}
use ucware_mail_server.Handlers.Send.{
  SendMessageRequest, archive_sent, answer_sent, smtp_failed, archive_files, send_files, send_raw,
  send_built, payloads, send_given, send_parsed,
}
use ucware_mail_server.Handlers.Send.Accounted.Tries.{
  Answer, Tried, archive_sent-Tried, archive_files-Tried, answer_sent-Answer,
}

module _ (env : Env) (c : Config) (r : Request) (req : SendMessageRequest) (s : Service) where
  abbrev Good : Response → Service → Type 0
  Good = Answer env c r req s

  abbrev Waiting : {A : Type 0} → A → Service → Type 0
  Waiting _ t = Quiet s t

  abbrev Taken : {A : Type 0} → A → Service → Type 0
  Taken _ t = Accepted req.from_addr req.to_addr s t

  abbrev Filed : Result (Unit {0}) → Service → Type 0
  Filed = Tried env c r req s

  or_else-Ends :
      {A : Type 0} (P : Service → Type 0) (x : Result A × Service) (f : Error → H A)
      → OnOk P x
      → ((e : Error) (t : Service) → Ends (λ _. P) Good (f e t))
      → Ends (λ _. P) Good (or_else x.0 f x.1)
  or_else-Ends P (ok a, t) f h g = h
  or_else-Ends P (err e, t) f h g = g e t

  -- The use of the client, and the answer 502 where it fails.
  handed :
      (m : Exec Service (Unit {0})) (k : H (Unit {0})) (t : Service)
      → OnOk (Accepted req.from_addr req.to_addr s) (m t)
      → ((u : Service) → Accepted req.from_addr req.to_addr s u → Ends Never Good (k u))
      → Ends Never Good ((client m >>= λ x. or_else x (smtp_failed env c r req) >>= λ _. k) t)
  unfolding smtp_failed
  handed m k t h g =
      bind-Ends {B = Unit {0}} Good Taken Never
        (λ u. or_else (m u).0 (smtp_failed env c r req) (m u).1) (λ _. k) t
        (or_else-Ends (Accepted req.from_addr req.to_addr s) (m t) (smtp_failed env c r req) h
          (λ e u. inl (omega arith)))
        λ _ u. g u

  -- A result, or the answer 400.
  or_refuse :
      {A : Type 0} (x : Result A) (why : Text → Text) (t : Service)
      → Quiet s t
      → Ends Waiting Good (or_else x (λ e. bad_request (why (error_text e))) t)
  or_refuse (ok a) why t h = h
  or_refuse (err e) why t h = inl (omega arith)

  require-Ends :
      (b : Bool) (f : H (Unit {0})) (t : Service)
      → Quiet s t
      → Ends Waiting Good (f t)
      → Ends Waiting Good (require b f t)
  require-Ends true f t h g = h
  require-Ends false f t h g = g

  send_raw-Answer :
      (raw : Text) (t : Service) → Quiet s t → Ends Never Good (send_raw env c r req raw t)
  unfolding send_raw
  send_raw-Answer raw t h =
      let answer = answer_sent env c r req (extract_attachment_meta env.codec raw) in
      handed (send_mail env c req.from_addr req.to_addr raw) (archive_sent env c req raw >>= answer)
        t (send_mail-Accepted env c req.from_addr req.to_addr raw s t h)
        λ u k.
          bind-Ends {B = Unit {0}} Good Filed Never (archive_sent env c req raw) answer u
            (archive_sent-Tried env c r req s raw u k)
            (answer_sent-Answer env c r req s (extract_attachment_meta env.codec raw))

  send_files-Answer :
      (files : List SendFilePayload) (t : Service)
      → Quiet s t
      → Ends Never Good (send_files env c r req files t)
  unfolding send_files
  send_files-Answer files t h =
      let meta = attachment_meta_from_files env.codec files in
      let answer = answer_sent env c r req meta in
      let sending =
        send_multipart_smtp env c req.from_addr req.to_addr req.subject req.text_body files in
      let rest : H (Unit {0}) = archive_files env c req files >>= answer in
      bind-Ends {B = Unit {0}} Good Waiting Never
        (or_else (validate_file_count files) (λ e. bad_request (error_text e)))
        (λ _. client sending >>= λ x. or_else x (smtp_failed env c r req) >>= λ _. rest) t
        (or_refuse (validate_file_count files) (λ w. w) t h)
        λ _ u k.
          handed sending rest u
            (send_multipart_smtp-Accepted env c req.from_addr req.to_addr req.subject req.text_body
              files s u k)
            λ v l.
              bind-Ends {B = Unit {0}} Good Filed Never (archive_files env c req files) answer v
                (archive_files-Tried env c r req s files v l)
                (answer_sent-Answer env c r req s meta)

  send_built-Answer :
      (files : List SendFilePayload) (t : Service)
      → Quiet s t
      → Ends Never Good (send_built env c r req files t)
  unfolding send_built
  send_built-Answer [] t h =
      send_raw-Answer
        (build_raw_mime env.codec (env.clock t.reads) req.from_addr req.to_addr req.subject
          req.text_body)
        (record t { reads = t.reads + 1 })
        (record { same_relay = h.same_relay; same_archive = h.same_archive })
  send_built-Answer (f ∷ files) t h = send_files-Answer (f ∷ files) t h

  send_given-Answer :
      (files : List SendFilePayload) (raw : Text) (t : Service)
      → Quiet s t
      → Ends Never Good (send_given env c r req files raw t)
  unfolding send_given
  send_given-Answer files (b ∷ raw) t h = send_raw-Answer (b ∷ raw) t h
  send_given-Answer files [] t h =
      bind-Ends {B = Unit {0}} Good Waiting Never
        (or_else (payloads env c req files)
          (λ e. bad_request (codes "invalid attachments: " ++ error_text e)))
        (send_built env c r req) t
        (or_refuse (payloads env c req files) (λ w. codes "invalid attachments: " ++ w) t h)
        send_built-Answer

  pub send_parsed-Answer :
      (files : List SendFilePayload) (t : Service)
      → Quiet s t
      → Ends Never Good (send_parsed env c r req files t)
  unfolding send_parsed
  send_parsed-Answer files t h =
      let valid = is_valid_email env req.from_addr && is_valid_email env req.to_addr in
      let refusal : H (Unit {0}) =
        bad_request (codes "fromAddr/toAddr are required and must be valid email") in
      bind-Ends {B = Unit {0}} Good Waiting Never (require valid refusal)
        (λ _. send_given env c r req files (trim_space req.raw_mime)) t
        (require-Ends valid refusal t h (inl (omega arith)))
        λ _. send_given-Answer files (trim_space req.raw_mime)
