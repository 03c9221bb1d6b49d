-- ===== src/Handshake.antt =====
-- The exchange of a client and a daemon, from the challenge request to the pair configurations.
pub mod Laws
pub mod Buffer
pub mod Messages
pub mod ClientSide
pub mod ClientRun
pub mod DaemonSide
pub mod Serving
pub mod DaemonRun
pub mod Completes
pub mod Started
mod Examples
