-- ===== src/Lib.antt =====
-- Verification of the mail administration server (cmd/mail-admin/app): its mail protocols, its two
-- SQL stores, its authentication service, and its handlers of users, archive and sending.
--
-- The server takes mail from Postfix over LMTP and puts one copy per recipient into the archive
-- store; it lets users fetch and delete archived mail over POP3, with passwords from the user
-- store; and it has an HTTP API whose administrators log in through the authentication service,
-- which keeps accounts, refresh tokens, TOTP challenges and OAuth2 states in the user store. The
-- API's other handlers manage mail users, whose table they export to the files of Dovecot and Postfix
-- after each change, read and fill the archive, and send mail through an SMTP relay with a copy to
-- the archive.
--
-- Files:
-- * Pop3 (cmd/mail-admin/app/pop3_server.go). Pop3.Session is `pop3Session` with both stores and
--   what was written; Pop3.Maildrop has `stat` and `parseIndex`, Pop3.Wire `writePOP3DotData` and
--   `topLines`, Pop3.Serve the command loop `serve`: `step` is one round of it.
-- * Lmtp (cmd/mail-admin/app/lmtp_server.go). Lmtp.Address is `extractLMTPAngle`, Lmtp.DotData
--   `readLMTPDotData`, Lmtp.Delivery `deliverOne` and `findOrCreateMailbox`, Lmtp.Serve `serve`.
-- * Archive (cmd/mail-admin/app/internal/archive/sqlstore.go). `Archive` holds the tables, with a
--   function for each method of `SQLStore`; Archive.Rebind is `rebind`.
-- * Store (cmd/mail-admin/app/internal/store/sqlite.go). Store.Types holds rows and tables,
--   Store.Users, Store.Admins and Store.Tokens a function for each method of `SQLiteStore`.
-- * RateLimit (cmd/mail-admin/app/infra/ratelimit/fixed_window.go): `FixedWindow` and `Allow`.
-- * Auth (cmd/mail-admin/app/auth/service.go): Auth.State is `Service` with `Config`, Auth.Lockout
--   the counters of failed logins, Auth.Tokens the issue of tokens, Auth.Login `HandleLogin`,
--   Auth.Sessions refresh and logout, Auth.Totp and Auth.Oauth2 those handlers, Auth.Access
--   `WithAuth`, Auth.Admins the handlers of administrators, Auth.Bootstrap `EnsureBootstrapAdmin`.
--   Auth.Granting is about handlers by the tokens they answer with.
-- * Handlers (cmd/mail-admin/app/handlers/service.go): Handlers.State is `Service` with `Config`,
--   Handlers.Users has the handlers of users, synchronisation and audit logs, Handlers.Routing
--   `resolveMailboxIDForAutoRoute` and `archiveOutboundCopy`, Handlers.Messages `HandleMailboxes` and
--   `HandleMessages`, Handlers.Attachments the checks of attachments and `walkMultipartParts`,
--   Handlers.Mime `buildRawMIME`, `writeMultipartMIME` and `base64LineWriter`, Handlers.Smtp
--   `sendMultipartSMTP`, Handlers.Send `HandleSend`.
-- * Syncer (cmd/mail-admin/app/internal/syncer/exporter.go): `Export` and `writeAtomically`.
-- * Mail puts LMTP, the archive and POP3 together.
-- * Config (`loadConfig` of cmd/mail-admin/app/config.go, `config` of types.go beside it) and Envx
--   (cmd/mail-admin/app/infra/envx/envx.go).
-- * Security (cmd/mail-admin/app/security/context_audit.go) and Http (requests, answers,
--   `requestClientIP`, and in Http.AccessLog cmd/mail-admin/app/infra/httpx/httpx.go);
--   Sql, Text, Dict and Base are what the others share.
--
-- How the program is modelled. Text is a list of bytes; case and white space are those of ASCII.
-- Instants are natural numbers of nanoseconds, which the stores write as RFC 3339 text and compare
-- as text (Text.Stamp). A store operation is a function from tables to a result and tables; before
-- each statement it asks the parameter `fault` whether the statement with this number fails, so the
-- theorems hold for any pattern of failures unless they say otherwise. UUIDs, the clock, random
-- bytes, bcrypt, SHA-256, JWT, TOTP, the mail address parser, the MIME and base64 packages and
-- the OAuth2 providers are parameters. The calls of the file system and of the SMTP client are
-- numbered and may fail like statements; one that fails has had no effect. A handler that answers
-- ends there; the audit row that the code writes after an answer is written before it, which no
-- reader of the answer can tell.
--
-- Bounds and fuel. The LMTP loop runs on fuel, one more than there are lines of input, which
-- Lmtp.Serve.Envelope is about. Decimal printing has as much fuel as the number, which is at least
-- its number of digits. The walk over the parts of a message has the length of the body as fuel, and
-- a part is shorter than the body it is in. Numbers have no upper bound but in `atoi`, which refuses
-- those that pass Go's `int`; sizes and counters of the program stay far below it.
--
-- Not modelled: sockets, deadlines, goroutines and the process start; the wiring of
-- the services and the web front end; the columns `updated_at`, which no query reads.
pub mod Base
pub mod Text
pub mod Dict
pub mod RateLimit
pub mod Sql
pub mod Archive
pub mod Store
pub mod Pop3
pub mod Lmtp
pub mod Security
pub mod Http
pub mod Auth
pub mod Syncer
pub mod Handlers
pub mod Mail
pub mod Envx
pub mod Config
