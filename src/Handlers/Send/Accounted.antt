-- ===== src/Handlers/Send/Accounted.antt =====
-- What an answer of `HandleSend` in cmd/mail-admin/app/handlers/service.go says of the relay and of
-- the archive.
pub mod Tries
pub mod Answers
use ucware_mail_server.Base.{
  ◌+◌, ◌≤◌, ◌≡◌, ◌⊎◌, inl, inr, refl, ap, arith, Bool, true, false, not, ◌&&◌, ◌++◌, leb, List, [],
  ◌∷◌, Bool-cases,
}
use ucware_mail_server.Text.{Text, codes, is_empty, text_eq, to_lower, trim_space}
use ucware_mail_server.RateLimit.{allow}
use ucware_mail_server.Sql.{Error, Result, ok, err, Exec, Result-cases}
use ucware_mail_server.Archive.{Message, Archive}
use ucware_mail_server.Http.{
  Request, Response, SendMessageResponse, AttachmentMeta, Outcome, got, sent, ◌>>=◌, mail_sent,
}
use ucware_mail_server.Http.Ends.{Ends, bind-Ends, Never}
use ucware_mail_server.Handlers.Attachments.{
  SendFilePayload, attachment_meta_from_files, validate_file_count, total_attachment_bytes,
  send_archive_raw_max_bytes,
}
use ucware_mail_server.Handlers.Attachments.Extract.{extract_attachment_meta}
use ucware_mail_server.Handlers.Mime.{build_raw_mime, build_multipart_mime}
use ucware_mail_server.Handlers.Routing.{archive_outbound_copy}
use ucware_mail_server.Handlers.Routing.Copies.{Copies, archive_outbound_copy-Copies}
use ucware_mail_server.Handlers.Smtp.{client, send_multipart_smtp, send_mail}
use ucware_mail_server.Handlers.Smtp.Accepted.{
  Quiet, Accepted, OnOk, Quiet-refl, send_mail-Accepted, send_multipart_smtp-Accepted,
}
use ucware_mail_server.Handlers.State.{
  Config, Env, Service, Mail, H, or_else, require, bad_request, error_text, is_valid_email,
  method_not_allowed,
}
use ucware_mail_server.Handlers.Send.{
  SendMessageRequest, SendBody, parse_send_request, allow_send, archive_sent, answer_sent,
  smtp_failed, archive_built, rebuild, archive_files, send_files, send_raw, send_built, payloads,
  send_given, trimmed, send_parsed, send_body, send_key, no_relay, limited, handle_send,
}
use ucware_mail_server.Handlers.Send.Accounted.Tries.{Accounted, Answer}
use ucware_mail_server.Handlers.Send.Accounted.Answers.{send_parsed-Answer}

module _ (env : Env) (c : Config) (r : Request) (body : SendBody) (s : Service) where
  -- The answer refuses, or a message with the addresses of the body has been sent.
  abbrev pub AnswerTo : Response → Service → Type 0
  AnswerTo a t =
      (400 ≤ a.status)
      ⊎ ((req : SendMessageRequest) × (files : List SendFilePayload) × (parse_send_request body
            ≡ ok (req, files))
          × Accounted (to_lower (trim_space req.from_addr)) (to_lower (trim_space req.to_addr)) s a
              t)

  abbrev Untouched : {A : Type 0} → A → Service → Type 0
  Untouched _ t = Quiet s t

  of_Answer :
      (req : SendMessageRequest) (files : List SendFilePayload)
      → parse_send_request body ≡ ok (req, files)
      → (o : Outcome (Unit {0}) × Service) → Ends Never (Answer env c r (trimmed env c req) s) o
      → Ends Never AnswerTo o
  unfolding trimmed
  of_Answer req files e (got a, t) h = h
  of_Answer req files e (sent a, t) (inl h) = inl h
  of_Answer req files e (sent a, t) (inr h) = inr (req, files, e, h)

  send_body-AnswerTo : (t : Service) → Quiet s t → Ends Never AnswerTo (send_body env c r body t)
  unfolding send_body
  send_body-AnswerTo t h = elim (Result-cases (parse_send_request body)) [
    | inr (e, f) ↦ rw f (inl (omega arith))
    | inl ((req, files), f) ↦ rw f (
        of_Answer req files f (send_parsed env c r (trimmed env c req) files t)
          (send_parsed-Answer env c r (trimmed env c req) s files t h))
  ]

  -- A test that fails with a refusal, before the rest.
  required :
      (b : Bool) (f k : H (Unit {0})) (t : Service)
      → Quiet s t
      → Ends Never AnswerTo (f t)
      → ((u : Service) → Quiet s u → Ends Never AnswerTo (k u))
      → Ends Never AnswerTo ((require b f >>= λ _. k) t)
  required true f k t q h g = g t q
  required false f k t q h g = bind-Ends AnswerTo Never Never f (λ _. k) t h λ _ u n. absurd n

  -- `HandleSend` always answers. An answer with a status below 400 is 200: the relay has accepted
  -- one message more, from and to the addresses of the request, and the archive has one outbound
  -- message more with these addresses where the answer says `archived`, and else none.
  pub handle_send-AnswerTo : Ends Never AnswerTo (handle_send env c r body s)
  unfolding handle_send allow_send
  handle_send-AnswerTo =
      let configured = not (is_empty (trim_space c.smtp_relay_addr)) in
      let relayed : H (Unit {0}) =
        require configured (no_relay env c) >>= λ _. send_body env c r body in
      required (text_eq r.method (codes "POST")) method_not_allowed
        (allow_send env c r >>= λ allowed. require allowed (limited env c r) >>= λ _. relayed) s
        (Quiet-refl s) (inl (omega arith))
        λ t h.
          required (allow t.send_limiter (send_key env c r) (env.clock t.reads)).1 (limited env c r)
            relayed (allow_send env c r t).1
            (record { same_relay = h.same_relay; same_archive = h.same_archive })
            (inl (omega arith))
            λ u k.
              required configured (no_relay env c) (send_body env c r body) u k (inl (omega arith))
                send_body-AnswerTo
