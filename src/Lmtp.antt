-- ===== src/Lmtp.antt =====
-- cmd/mail-admin/app/lmtp_server.go. `Lmtp.Address` and `Lmtp.DotData` read addresses and message
-- data, `Lmtp.Delivery` stores a message, and `Lmtp.Serve` is the session with its command loop.
pub mod Address
pub mod DotData
pub mod Delivery
pub mod Serve
mod Tests
