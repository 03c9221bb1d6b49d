-- ===== src/Client.antt =====
-- internal/pipie/client.go: the node that asks a daemon for a session.
pub mod Exchanges
pub mod Tasks
pub mod Confirmed
pub mod Exchanged
pub mod Verified
mod Examples
