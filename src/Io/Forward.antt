-- ===== src/Io/Forward.antt =====
-- lib/io/port_forward_client.go and port_forward_server.go: the command channel of a port forward.
pub mod Signal
pub mod ClientLoop
pub mod ServerLoop
pub mod StartPairing
pub mod PairingEnds
pub mod Dealer
pub mod DealerOrder
pub mod Connections
pub mod Accepting
pub mod Settled
pub mod Protocol
pub mod Phases
pub mod InStep
mod DealerExamples
mod PairingExamples
mod Examples
