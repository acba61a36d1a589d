-- ===== src/Handlers/State.antt =====
-- `Config`, `Service` and the small helpers of cmd/mail-admin/app/handlers/service.go.
use ucware_mail_server.Base.{
  ℕ, ◌+◌, Bool, true, false, Option, none, some, List, [], ◌∷◌, ltb, if◌then◌else◌,
}
use ucware_mail_server.Text.{Text, codes, equal_fold, trim_space}
use ucware_mail_server.Text.Numbers.{ℤ, pos, atoi}
use ucware_mail_server.Sql.{Error, no_rows, failed, Result, ok, err, Exec}
use ucware_mail_server.Store.Types.{AuditLog, Store}
use ucware_mail_server.Store.Users.{insert_audit_log}
use ucware_mail_server.Archive.{Archive, Sql}
use ucware_mail_server.Syncer.{ExportConfig, Disk}
use ucware_mail_server.RateLimit.{FixedWindow, new_fixed_window, minute}
use ucware_mail_server.Security.{build_audit_log, actor_from_email}
use ucware_mail_server.Handlers.Attachments.{Codec}
use ucware_mail_server.Http.{Request, got, Handler, ◌>>=◌, pure, http_error}

-- `archive_enabled` is `s.archive != nil`.
pub record Config : Type 0 where
  pub export_config : ExportConfig
  pub archive_enabled : Bool
  pub archive_auto_route_enabled : Bool
  pub archive_inbound_mailbox : Text
  pub archive_outbound_mailbox : Text
  pub smtp_relay_addr : Text
  pub smtp_username : Text
  pub smtp_password : Text
  pub send_rate_limit_per_min : ℕ

-- `smtp.PlainAuth`, without the identity, which is empty.
pub record PlainAuth : Type 0 where
  pub username : Text
  pub password : Text
  pub host : Text

-- A message that the relay has accepted.
pub record Mail : Type 0 where
  pub auth : Option PlainAuth
  pub from : Text
  pub to : Text
  pub content : Text

-- What the service does not implement: the faults of the store's database, of the file system and
-- of the n-th call of the SMTP client, whether the relay offers AUTH, the archive's database, the
-- clock at its n-th reading and at the n-th row of the archive, the boundary of the writer made at
-- that reading, bcrypt, `mail.ParseAddress`, `net.SplitHostPort`, `time.Parse` for RFC 3339, and
-- the codecs.
pub record Env : Type 0 where
  pub fault : ℕ → Option Text
  pub disk_fault : ℕ → Option Text
  pub smtp_fault : ℕ → Option Text
  pub offers_auth : Bool
  pub sql : Sql
  pub clock : ℕ → ℕ
  pub row_clock : ℕ → ℕ
  pub bcrypt_hash : Text → Result Text
  pub parse_address : Text → Option Text
  pub split_host : Text → Option Text
  pub parse_time : Text → Option ℕ
  pub boundary : ℕ → Text
  pub codec : Codec

-- `reads` counts the readings of the clock, `smtp_calls` the calls of the SMTP client; `relay` is the
-- mail that the relay has accepted, the newest first.
pub record Service : Type 0 where
  pub store : Store
  pub archive : Archive
  pub disk : Disk
  pub send_limiter : FixedWindow
  pub relay : List Mail
  pub smtp_calls : ℕ
  pub reads : ℕ

unfoldable pub new_service : Config → Store → Archive → Disk → Service
unfolding new_fixed_window
new_service c store archive disk = record {
  store = store;
  archive = archive;
  disk = disk;
  send_limiter =
      new_fixed_window (if ltb c.send_rate_limit_per_min 1 then 60 else c.send_rate_limit_per_min)
        minute;
  relay = [];
  smtp_calls = 0;
  reads = 0;
}

abbrev pub H : Type 0 → Type 0
H A = Handler Service A

abbrev pub error_text : Error → Text
error_text no_rows = codes "sql: no rows in result set"
error_text (failed why) = why

abbrev pub or_else : {A : Type 0} → Result A → (Error → H A) → H A
or_else (ok a) f = pure a
or_else (err e) f = f e

-- A call of the store, of the archive, or of the exporter.
abbrev pub query : {A : Type 0} → Exec Store A → (Error → H A) → H A
query m f s = or_else (m s.store).0 f (record s { store = (m s.store).1 })

-- A call of the archive whose error the caller looks at.
abbrev pub try_archive : {A : Type 0} → Exec Archive A → H (Result A)
try_archive m s = (got (m s.archive).0, record s { archive = (m s.archive).1 })

abbrev pub query_archive : {A : Type 0} → Exec Archive A → H A
query_archive m = try_archive m >>= λ r. or_else r (λ e. http_error 500 (error_text e))

abbrev pub internal : {A : Type 0} → Error → H A
internal e = http_error 500 (error_text e)

abbrev pub require : Bool → H (Unit {0}) → H (Unit {0})
require true f = pure tt
require false f = f

abbrev pub method_not_allowed : {A : Type 0} → H A
method_not_allowed = http_error 405 (codes "method not allowed")

abbrev pub bad_request : {A : Type 0} → Text → H A
bad_request why = http_error 400 why

abbrev pub forbidden : {A : Type 0} → H A
forbidden = http_error 403 (codes "forbidden")

abbrev pub or_bad_json : {A : Type 0} → Option A → H A
or_bad_json none = bad_request (codes "invalid json")
or_bad_json (some a) = pure a

limit_from : Option ℤ → H ℕ
limit_from (some (pos n)) =
    if ltb n 1
    then bad_request (codes "limit must be between 1 and 1000")
    else if ltb 1000 n
    then bad_request (codes "limit must be between 1 and 1000")
    else pure n
limit_from _ = bad_request (codes "limit must be between 1 and 1000")

given_limit : Text → H ℕ
unfolding limit_from atoi
given_limit [] = pure 100
given_limit (c ∷ raw) = limit_from (atoi (c ∷ raw))

-- The query parameter `limit`, empty where it is missing.
unfoldable pub parse_limit : Text → H ℕ
unfolding given_limit trim_space
parse_limit raw = given_limit (trim_space raw)

abbrev pub actor_of : Request → Text
actor_of r = actor_from_email r.actor

module _ (env : Env) where
  unfoldable pub is_valid_email : Text → Bool
  unfolding equal_fold
  is_valid_email value = elim (env.parse_address value) [
    | none ↦ false
    | some addr ↦ equal_fold addr value
  ]

  abbrev pub now : H ℕ
  now s = (got (env.clock s.reads), record s { reads = s.reads + 1 })

  abbrev pub audit_row : Request → Text → Text → Text → Text → AuditLog
  audit_row r action email status message =
      build_audit_log env.split_host action (actor_of r) email status message r.remote_addr
        r.user_agent

  -- `writeAudit`: the error of the insert is logged only.
  abbrev pub write_audit : Request → Text → Text → Text → Text → H (Unit {0})
  write_audit r action email status message s = (
    got tt,
    record s {
      reads = s.reads + 1;
      store =
          (insert_audit_log env.fault (env.clock s.reads) (audit_row r action email status message)
            s.store).1;
    },
  )

  -- `http.Error` and then an audit row of the actor.
  abbrev pub refuse : {A : Type 0} → Request → ℕ → Text → Text → Text → Text → H A
  refuse r status why action email message =
      write_audit r action email (codes "failed") message >>= λ _. http_error status why

  -- An error that is answered with 500 and written to the audit log.
  abbrev pub audited : {A : Type 0} → Request → Text → Text → Error → H A
  audited r action email e = refuse r 500 (error_text e) action email (error_text e)
