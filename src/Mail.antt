-- ===== src/Mail.antt =====
-- A message from its delivery in cmd/mail-admin/app/lmtp_server.go to the maildrop that
-- cmd/mail-admin/app/pop3_server.go shows its recipient, through the archive that both use.
pub mod Inbox
pub mod Retrieval
mod Tests
