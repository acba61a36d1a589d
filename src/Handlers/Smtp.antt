-- ===== src/Handlers/Smtp.antt =====
-- The client side of SMTP in cmd/mail-admin/app/handlers/service.go: `sendMultipartSMTP`,
-- `smtpHostFromAddr` and the call of `smtp.SendMail`. A call of the client that fails has had no
-- effect; only the end of the data, or the whole of `smtp.SendMail`, hands a message to the relay.
pub mod Accepted
use ucware_mail_server.Base.{
  ℕ, ◌+◌, Bool, not, ◌&&◌, List, [], ◌∷◌, Option, none, some, take, length, if◌then◌else◌,
}
use ucware_mail_server.Text.{Text, is_empty, trim_space, contains_byte, cut}
use ucware_mail_server.Sql.{Error, failed, Result, ok, err, Exec, pure, raise, modify, ◌>>=◌, ◌>>◌}
use ucware_mail_server.Http.{got}
use ucware_mail_server.Handlers.Attachments.{SendFilePayload}
use ucware_mail_server.Handlers.Mime.{Written, write_multipart_mime}
use ucware_mail_server.Handlers.State.{Config, Env, Service, PlainAuth, Mail, H}

-- `net.SplitHostPort` gives no host, or an empty one. The position is that in the trimmed text.
host_before_colon : Text → Text
unfolding trim_space contains_byte cut
host_before_colon addr =
    if contains_byte b':' (trim_space addr)
    then trim_space (take (length (cut b':' (trim_space addr)).0) addr)
    else trim_space addr

host_given : Text → Option Text → Text
unfolding host_before_colon
host_given addr none = host_before_colon addr
host_given addr (some []) = host_before_colon addr
host_given addr (some (c ∷ host)) = c ∷ host

-- `split_host` is `net.SplitHostPort`.
unfoldable pub smtp_host_from_addr : (Text → Option Text) → Text → Text
unfolding host_given trim_space
smtp_host_from_addr split_host addr = host_given addr (split_host (trim_space addr))

-- What the handler sees of a use of the client.
abbrev pub client : {A : Type 0} → Exec Service A → H (Result A)
client m s = (got (m s).0, (m s).1)

module _ (env : Env) (c : Config) where
  unfoldable pub smtp_call : Exec Service (Unit {0})
  smtp_call s = elim (env.smtp_fault s.smtp_calls) [
    | none ↦ (ok tt, record s { smtp_calls = s.smtp_calls + 1 })
    | some why ↦ (err (failed why), record s { smtp_calls = s.smtp_calls + 1 })
  ]

  -- The credentials, where a user name is configured.
  unfoldable pub plain_auth : Option PlainAuth
  unfolding smtp_host_from_addr trim_space
  plain_auth =
      if is_empty (trim_space c.smtp_username)
      then none
      else some (record {
        username = c.smtp_username;
        password = c.smtp_password;
        host = smtp_host_from_addr env.split_host c.smtp_relay_addr;
      })

  abbrev pub offered : Option PlainAuth
  unfolding plain_auth
  offered = if env.offers_auth then plain_auth else none

  authenticate : Option PlainAuth → Exec Service (Unit {0})
  unfolding smtp_call
  authenticate none = pure tt
  authenticate (some _) = smtp_call

  -- The message is handed over, with the credentials given in this session.
  unfoldable pub hand_over : Option PlainAuth → Text → Text → Text → Exec Service (Unit {0})
  unfolding smtp_call
  hand_over auth from to content = do
    smtp_call
    modify (λ s. record s {
      relay = record { auth = auth; from = from; to = to; content = content } ∷ s.relay;
    })

  -- `smtp.SendMail`.
  unfoldable pub send_mail : Text → Text → Text → Exec Service (Unit {0})
  unfolding hand_over plain_auth
  send_mail from to content = hand_over plain_auth from to content

  -- `writeMultipartMIME` with the time and the boundary of this moment.
  write_now : Text → Text → Text → Text → List SendFilePayload → Exec Service Written
  unfolding write_multipart_mime
  write_now from to subject body files s = (
    ok (
        write_multipart_mime env.codec (env.boundary s.reads) (env.clock s.reads) from to subject
          body files),
    record s { reads = s.reads + 1 },
  )

  -- `_ = wc.Close()`.
  ignored : Exec Service (Unit {0}) → Exec Service (Unit {0})
  ignored m s = (ok tt, (m s).1)

  -- The data is ended whether or not all of the message was written.
  close_data : Text → Text → Text → Result (Unit {0}) → Exec Service (Unit {0})
  unfolding hand_over ignored smtp_call
  close_data from to content (err e) = do ignored (hand_over offered from to content); raise e
  close_data from to content (ok _) = do hand_over offered from to content; smtp_call

  -- `Dial`, `Auth` where the relay offers it, `Mail`, `Rcpt`, `Data`, the writes (one call), the end
  -- of the data, `Quit`. After a write that fails on the connection the relay has no message.
  unfoldable pub send_multipart_smtp :
      Text → Text → Text → Text → List SendFilePayload → Exec Service (Unit {0})
  unfolding smtp_call authenticate write_now close_data
  send_multipart_smtp from to subject body files = do
    smtp_call
    authenticate offered
    smtp_call
    smtp_call
    smtp_call
    w ← write_now from to subject body files
    smtp_call
    close_data from to w.out w.outcome
