-- ===== src/Handlers/Smtp/Accepted.antt =====
-- What a use of the SMTP client in cmd/mail-admin/app/handlers/service.go that succeeds has done.
use ucware_mail_server.Base.{
  ◌+◌, ◌≡◌, refl, ◌∙◌, Option, none, some, List, ◌∷◌, inl, inr, Option-cases,
}
use ucware_mail_server.Text.{Text}
use ucware_mail_server.Sql.{Result, ok, err, Exec, and_then, ◌>>◌}
use ucware_mail_server.Handlers.Attachments.{SendFilePayload}
use ucware_mail_server.Handlers.State.{Config, Env, Service, PlainAuth, Mail}
use ucware_mail_server.Handlers.Smtp.{
  smtp_call, authenticate, offered, plain_auth, hand_over, send_mail, write_now, close_data,
  ignored, send_multipart_smtp,
}

-- Neither the relay nor the archive has changed.
pub record Quiet (s t : Service) : Type 0 where
  pub same_relay : t.relay ≡ s.relay
  pub same_archive : t.archive ≡ s.archive

-- The relay has accepted one message more.
pub record Accepted (from to : Text) (s t : Service) : Type 0 where
  pub mail : Mail
  pub relay : t.relay ≡ mail ∷ s.relay
  pub sender : mail.from ≡ from
  pub recipient : mail.to ≡ to
  pub same_archive : t.archive ≡ s.archive

abbrev pub OnOk : {A : Type 0} → (Service → Type 0) → Result A × Service → Type 0
OnOk P (ok a, s) = P s
OnOk P (err e, s) = Unit

and_then-OnOk :
    {A B : Type 0} (P R : Service → Type 0) (k : A → Exec Service B) (r : Result A × Service)
    → OnOk P r
    → ((a : A) (s : Service) → P s → OnOk R (k a s))
    → OnOk R (and_then r k)
and_then-OnOk P R k (ok a, s) h g = g a s h
and_then-OnOk P R k (err e, s) h g = tt

pub Quiet-refl : (s : Service) → Quiet s s
Quiet-refl s = record { same_relay = refl; same_archive = refl }

on_ok : (P : Service → Type 0) (r : Result (Unit {0}) × Service) → P r.1 → OnOk P r
on_ok P (ok tt, s) h = h
on_ok P (err e, s) h = tt

module _ (env : Env) (c : Config) where
  smtp_call-Quiet : (s t : Service) → Quiet s t → Quiet s (smtp_call env c t).1
  unfolding smtp_call
  smtp_call-Quiet s t h = elim (Option-cases (env.smtp_fault t.smtp_calls)) [
    | inl e ↦
        rw (e, smtp_call) (record { same_relay = h.same_relay; same_archive = h.same_archive })
    | inr (why, e) ↦
        rw (e, smtp_call) (record { same_relay = h.same_relay; same_archive = h.same_archive })
  ]

  call : (s t : Service) → Quiet s t → OnOk (Quiet s) (smtp_call env c t)
  call s t h = on_ok (Quiet s) (smtp_call env c t) (smtp_call-Quiet s t h)

  call_then :
      (s t : Service) (R : Service → Type 0) (k : Exec Service (Unit {0}))
      → Quiet s t
      → ((u : Service) → Quiet s u → OnOk R (k u))
      → OnOk R ((smtp_call env c >> k) t)
  call_then s t R k h g = and_then-OnOk (Quiet s) R (λ _. k) (smtp_call env c t) (call s t h) λ _. g

  hand_over-Accepted :
      (auth : Option PlainAuth) (from to content : Text) (s t : Service)
      → Quiet s t
      → OnOk (Accepted from to s) (hand_over env c auth from to content t)
  unfolding hand_over
  hand_over-Accepted auth from to content s t h = call_then s t (Accepted from to s) _ h λ u k.
      record {
        mail = record { auth = auth; from = from; to = to; content = content };
        relay = rw (k.same_relay) refl;
        sender = refl;
        recipient = refl;
        same_archive = k.same_archive;
      }

  pub send_mail-Accepted :
      (from to content : Text) (s t : Service)
      → Quiet s t
      → OnOk (Accepted from to s) (send_mail env c from to content t)
  unfolding send_mail
  send_mail-Accepted from to content s t h =
      hand_over-Accepted (plain_auth env c) from to content s t h

  calls_keep :
      (from to : Text) (s t : Service)
      → Accepted from to s t
      → OnOk (Accepted from to s) (smtp_call env c t)
  unfolding smtp_call
  calls_keep from to s t h = on_ok (Accepted from to s) (smtp_call env c t) (
      let q = smtp_call-Quiet t t (Quiet-refl t) in
      record {
        mail = h.mail;
        relay = q.same_relay ∙ h.relay;
        sender = h.sender;
        recipient = h.recipient;
        same_archive = q.same_archive ∙ h.same_archive;
      })

  close_data-Accepted :
      (from to content : Text) (x : Result (Unit {0})) (s t : Service)
      → Quiet s t
      → OnOk (Accepted from to s) (close_data env c from to content x t)
  unfolding close_data ignored
  close_data-Accepted from to content (err e) s t h = tt
  close_data-Accepted from to content (ok tt) s t h =
      and_then-OnOk (Accepted from to s) (Accepted from to s) (λ _. smtp_call env c)
        (hand_over env c (offered env c) from to content t)
        (hand_over-Accepted (offered env c) from to content s t h) λ _ u k. calls_keep from to s u k

  authenticate-Quiet :
      (o : Option PlainAuth) (s t : Service) → Quiet s t → OnOk (Quiet s) (authenticate env c o t)
  unfolding authenticate
  authenticate-Quiet none s t h = h
  authenticate-Quiet (some a) s t h = call s t h

  pub send_multipart_smtp-Accepted :
      (from to subject body : Text) (files : List SendFilePayload) (s t : Service)
      → Quiet s t
      → OnOk (Accepted from to s) (send_multipart_smtp env c from to subject body files t)
  unfolding send_multipart_smtp write_now
  send_multipart_smtp-Accepted from to subject body files s t h =
      call_then s t (Accepted from to s) _ h λ t1 h1.
        and_then-OnOk (Quiet s) (Accepted from to s) _ (authenticate env c (offered env c) t1)
          (authenticate-Quiet (offered env c) s t1 h1)
          λ _ t2 h2. call_then s t2 (Accepted from to s) _ h2 λ t3 h3.
            call_then s t3 (Accepted from to s) _ h3 λ t4 h4.
              call_then s t4 (Accepted from to s) _ h4 λ t5 h5.
                call_then s (record t5 { reads = t5.reads + 1 }) (Accepted from to s) _
                  (record { same_relay = h5.same_relay; same_archive = h5.same_archive })
                  λ t6 h6. close_data-Accepted from to _ _ s t6 h6
