-- ===== src/Pop3.antt =====
-- cmd/mail-admin/app/pop3_server.go. `Pop3.Session` is the state of one connection with the stores
-- that it uses, `Pop3.Maildrop` the message list, `Pop3.Wire` the multi-line replies, and
-- `Pop3.Serve` the command loop.
pub mod Maildrop
pub mod Wire
pub mod Session
pub mod Serve
mod Tests
