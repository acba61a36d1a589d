-- ===== src/Handlers/Send/Accounted/Tries.antt =====
-- The archiving of a message that the relay has accepted, and the answer, in `HandleSend` of
-- cmd/mail-admin/app/handlers/service.go.
use ucware_mail_server.Base.{
  ◌+◌, ◌≤◌, ◌≡◌, ◌⊎◌, inl, inr, refl, ap, Bool, true, false, leb, List, [], ◌∷◌, Bool-cases,
}
use ucware_mail_server.Text.{Text, codes, trim_space}
use ucware_mail_server.Sql.{Result, ok, err}
use ucware_mail_server.Archive.{Message, Archive}
use ucware_mail_server.Http.{Request, Response, SendMessageResponse, AttachmentMeta, mail_sent}
use ucware_mail_server.Http.Ends.{Ends, Never}
use ucware_mail_server.Handlers.Attachments.{
  SendFilePayload, total_attachment_bytes, send_archive_raw_max_bytes,
}
use ucware_mail_server.Handlers.Mime.{build_multipart_mime}
use ucware_mail_server.Handlers.Routing.{archive_outbound_copy}
use ucware_mail_server.Handlers.Routing.Copies.{Copies, archive_outbound_copy-Copies}
use ucware_mail_server.Handlers.Smtp.Accepted.{Quiet, Accepted}
use ucware_mail_server.Handlers.State.{Config, Env, Service, Mail, error_text}
use ucware_mail_server.Handlers.Send.{
  SendMessageRequest, archive_sent, answer_sent, archive_built, rebuild, archive_files,
}

-- The table of messages after a copy of an outbound message, or after none.
abbrev pub Kept : Text → Text → Bool → Archive → Archive → Type 0
Kept from to true a b =
    (m : Message) × (b.messages ≡ m ∷ a.messages)
    × (m.direction ≡ codes "outbound")
    × (m.from_addr ≡ trim_space from)
    × (m.to_addr ≡ trim_space to)
Kept from to false a b = b.messages ≡ a.messages

abbrev pub is_ok : Result (Unit {0}) → Bool
is_ok (ok _) = true
is_ok (err _) = false

-- The relay has one message more, and the archive a copy where the flag says so.
pub record Sends (from to : Text) (copied : Bool) (s t : Service) : Type 0 where
  pub mail : Mail
  pub relay : t.relay ≡ mail ∷ s.relay
  pub sender : mail.from ≡ from
  pub recipient : mail.to ≡ to
  pub copy : Kept from to copied s.archive t.archive

-- The answer to a message that has been sent.
pub record Accounted (from to : Text) (s : Service) (r : Response) (t : Service) : Type 0 where
  pub response : SendMessageResponse
  pub status : r.status ≡ 200
  pub body : r.body ≡ mail_sent response
  pub sends : Sends from to response.archived s t

Copies-Kept :
    (from to : Text) (a : Archive) (x : Result (Unit {0}) × Archive)
    → Copies from to a x
    → Kept from to (is_ok x.0) a x.1
Copies-Kept from to a (ok tt, b) h = h
Copies-Kept from to a (err e, b) h = h

module _ (env : Env) (c : Config) (r : Request) (req : SendMessageRequest) (s : Service) where
  abbrev pub Answer : Response → Service → Type 0
  Answer a t = (400 ≤ a.status) ⊎ Accounted req.from_addr req.to_addr s a t

  abbrev pub Fresh : {A : Type 0} → A → Service → Type 0
  Fresh _ t = Quiet s t

  abbrev pub Handed : {A : Type 0} → A → Service → Type 0
  Handed _ t = Accepted req.from_addr req.to_addr s t

  abbrev pub Tried : Result (Unit {0}) → Service → Type 0
  Tried x t = Sends req.from_addr req.to_addr (is_ok x) s t

  not_copied :
      (t : Service)
      → Accepted req.from_addr req.to_addr s t
      → Sends req.from_addr req.to_addr false s t
  not_copied t h = record {
    mail = h.mail;
    relay = h.relay;
    sender = h.sender;
    recipient = h.recipient;
    copy = ap (λ a. a.messages) h.same_archive;
  }

  -- The clock may be read.
  Accepted-later :
      (t : Service)
      → Accepted req.from_addr req.to_addr s t
      → Accepted req.from_addr req.to_addr s (record t { reads = t.reads + 1 })
  Accepted-later t h = record {
    mail = h.mail;
    relay = h.relay;
    sender = h.sender;
    recipient = h.recipient;
    same_archive = h.same_archive;
  }

  pub archive_sent-Tried :
      (raw : Text) (t : Service)
      → Accepted req.from_addr req.to_addr s t
      → Ends Tried Answer (archive_sent env c req raw t)
  unfolding archive_sent
  archive_sent-Tried raw t h =
      let x =
        archive_outbound_copy env c req.mailbox_id req.from_addr req.to_addr req.subject
          req.text_body raw (env.clock t.reads) t.archive in
      record {
        mail = h.mail;
        relay = h.relay;
        sender = h.sender;
        recipient = h.recipient;
        copy = rw (← h.same_archive) (
            Copies-Kept req.from_addr req.to_addr t.archive x (
              archive_outbound_copy-Copies env c req.from_addr req.to_addr req.subject req.text_body
                raw (env.clock t.reads) req.mailbox_id t.archive));
      }

  archive_built-Tried :
      (x : Result Text) (t : Service)
      → Accepted req.from_addr req.to_addr s t
      → Ends Tried Answer (archive_built env c req x t)
  unfolding archive_built
  archive_built-Tried (ok raw) t h = archive_sent-Tried raw t h
  archive_built-Tried (err e) t h = not_copied t h

  pub archive_files-Tried :
      (files : List SendFilePayload) (t : Service)
      → Accepted req.from_addr req.to_addr s t
      → Ends Tried Answer (archive_files env c req files t)
  unfolding archive_files rebuild
  archive_files-Tried files t h =
      elim (Bool-cases (leb (total_attachment_bytes files) send_archive_raw_max_bytes)) [
        | inr e ↦ rw e (not_copied t h)
        | inl e ↦ rw e (
            archive_built-Tried
              (build_multipart_mime env.codec (env.boundary t.reads) (env.clock t.reads)
                req.from_addr req.to_addr req.subject req.text_body files)
              (record t { reads = t.reads + 1 }) (Accepted-later t h))
      ]

  pub answer_sent-Answer :
      (meta : List AttachmentMeta) (x : Result (Unit {0})) (t : Service)
      → Tried x t
      → Ends Never Answer (answer_sent env c r req meta x t)
  unfolding answer_sent
  answer_sent-Answer meta (ok tt) t h = inr (record {
    response = record { archived = true; attachments = meta; warning = [] };
    status = refl;
    body = refl;
    sends = record {
      mail = h.mail;
      relay = h.relay;
      sender = h.sender;
      recipient = h.recipient;
      copy = h.copy;
    };
  })
  answer_sent-Answer meta (err e) t h = inr (record {
    response = record { archived = false; attachments = meta; warning = error_text e };
    status = refl;
    body = refl;
    sends = record {
      mail = h.mail;
      relay = h.relay;
      sender = h.sender;
      recipient = h.recipient;
      copy = h.copy;
    };
  })
