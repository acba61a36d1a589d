-- ===== src/Auth.antt =====
-- cmd/mail-admin/app/auth/service.go. `Auth.State` is the service with what it is built on,
-- `Auth.Lockout` the failed logins, `Auth.Tokens` the tokens, and the other children the handlers.
pub mod State
pub mod Lockout
pub mod Tokens
pub mod Granting
pub mod Login
pub mod Sessions
pub mod Totp
pub mod Oauth2
pub mod Access
pub mod Admins
pub mod Bootstrap
mod Tests
