-- ===== src/Store.antt =====
-- cmd/mail-admin/app/internal/store/sqlite.go: the SQLite tables of users, administrators, tokens,
-- challenges, OAuth2 states and the audit log, as lists of rows. The argument `fault` is the
-- database's: the error of the n-th statement, if it fails. Each operation that reads the clock
-- takes the instant `now`. Instants are kept as numbers; where SQL compares them, it compares texts.
pub mod Types
pub mod Users
pub mod Admins
pub mod Tokens
pub mod Frames
