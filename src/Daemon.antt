-- ===== src/Daemon.antt =====
-- internal/pipie/daemon.go: the node that answers exchanges and runs services.
pub mod State
pub mod Confirm
pub mod Serve
pub mod Handle
pub mod Untouched
pub mod Permitted
pub mod Authorized
pub mod Delivery
pub mod Tokens
pub mod Replay
pub mod Loop
pub mod Issued
pub mod Spent
pub mod Origin
pub mod Reply
mod Examples
