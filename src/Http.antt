-- ===== src/Http.antt =====
-- HTTP handlers: a handler reads and writes the state of its service and may answer at any point,
-- which ends it, as `http.Error(…); return` does. A request has the fields that the handlers read;
-- its JSON body is given to each handler decoded, or `none` where the decoder fails.
pub mod AccessLog
pub mod ClientIp
pub mod Ends
use ucware_mail_server.Base.{ℕ, Bool, true, false, List}
use ucware_mail_server.Text.{Text}

pub record Request : Type 0 where
  pub method : Text
  pub path : Text
  pub authorization : Text
  pub forwarded_for : Text
  pub real_ip : Text
  pub remote_addr : Text
  pub user_agent : Text
  -- The email of the request's context: empty unless `WithAuth` has put one there.
  pub actor : Text
  -- The role of the request's context, likewise.
  pub role : Text

pub record Tokens : Type 0 where
  pub access_token : Text
  pub refresh_token : Text
  pub expires_at : ℕ
  pub role : Text
  pub email : Text

pub record AdminUserResponse : Type 0 where
  pub email : Text
  pub role : Text
  pub created_at : ℕ

pub record UserResponse : Type 0 where
  pub email : Text
  pub created_at : ℕ

pub record AuditResponse : Type 0 where
  pub action : Text
  pub actor : Text
  pub email : Text
  pub status : Text
  pub message : Text
  pub remote_ip : Text
  pub user_agent : Text
  pub created_at : ℕ

pub record MailboxResponse : Type 0 where
  pub id : Text
  pub user_email : Text
  pub name : Text
  pub created_at : ℕ

pub record AttachmentMeta : Type 0 where
  pub filename : Text
  pub content_type : Text
  pub size_bytes : ℕ

pub record MessageResponse : Type 0 where
  pub id : Text
  pub mailbox_id : Text
  pub direction : Text
  pub from_addr : Text
  pub to_addr : Text
  pub subject : Text
  pub raw_mime : Text
  pub text_body : Text
  pub size_bytes : ℕ
  pub attachments : List AttachmentMeta
  pub received_at : ℕ
  pub created_at : ℕ

-- `attachmentCount` is the number of `attachments`.
pub record SendMessageResponse : Type 0 where
  pub archived : Bool
  pub attachments : List AttachmentMeta
  pub warning : Text

pub data Body : Type 0 where
  error : Text → Body
  result : Text → Body
  role_updated : Text → Body
  login : Tokens → Body
  totp_required : Text → Body
  totp_setup : Text → Text → Body
  location : Text → Body
  admin : AdminUserResponse → Body
  admins : List AdminUserResponse → Body
  healthy : Body
  user : UserResponse → Body
  users : List UserResponse → Body
  audits : List AuditResponse → Body
  mailbox : MailboxResponse → Body
  mailboxes : List MailboxResponse → Body
  message : MessageResponse → Body
  messages : List MessageResponse → Body
  mail_sent : SendMessageResponse → Body

pub record Response : Type 0 where
  pub status : ℕ
  pub body : Body

pub data Outcome (A : Type 0) : Type 0 where
  got : A → Outcome A
  sent : Response → Outcome A

abbrev pub Handler : Type 0 → Type 0 → Type 0
Handler S A = S → Outcome A × S

abbrev pub and_then : {S A B : Type 0} → Outcome A × S → (A → Handler S B) → Outcome B × S
and_then (got a, s) f = f a s
and_then (sent r, s) f = (sent r, s)

infixl 5 ◌>>=◌ ◌>>◌
abbrev pub ◌>>=◌ : {S A B : Type 0} → Handler S A → (A → Handler S B) → Handler S B
◌>>=◌ m f s = and_then (m s) f

abbrev pub ◌>>◌ : {S B : Type 0} → Handler S (Unit {0}) → Handler S B → Handler S B
m >> k = m >>= λ _. k

abbrev pub pure : {S A : Type 0} → A → Handler S A
pure a s = (got a, s)

abbrev pub modify : {S : Type 0} → (S → S) → Handler S (Unit {0})
modify f s = (got tt, f s)

abbrev pub send : {S A : Type 0} → ℕ → Body → Handler S A
send status body s = (sent (record { status = status; body = body }), s)

-- `http.Error`.
abbrev pub http_error : {S A : Type 0} → ℕ → Text → Handler S A
http_error status why = send status (error why)
