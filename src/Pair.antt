-- ===== src/Pair.antt =====
-- lib/pairconnect: pairing with the peer.
pub mod Builder
pub mod Identity
pub mod IdentityStream
pub mod Connect
pub mod Roles
pub mod Traverse
pub mod Punch
pub mod Peers
pub mod TraverseConnects
pub mod Attempts
pub mod Tcp
pub mod ReusableFd
pub mod Reliable
pub mod ReliableCloses
pub mod TcpServer
pub mod TcpRace
pub mod TcpReturns
pub mod OneByte
mod Examples
mod TraverseExamples
mod TcpExamples
mod ReliableExamples
