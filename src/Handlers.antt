-- ===== src/Handlers.antt =====
-- cmd/mail-admin/app/handlers/service.go. `Handlers.State` is the service with what it is built on,
-- `Handlers.Users` the mail users with the exported files, `Handlers.Routing` the choice of a
-- mailbox and the archiving of outbound mail, `Handlers.Messages` the mailboxes and messages of the
-- archive, `Handlers.Attachments` and `Handlers.Mime` the parts of a message, `Handlers.Smtp` the
-- SMTP client, and `Handlers.Send` the sending.
pub mod Attachments
pub mod Mime
pub mod State
pub mod Users
pub mod Routing
pub mod Messages
pub mod Smtp
pub mod Send
mod Tests
