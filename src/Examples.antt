-- ===== src/Examples.antt =====
-- Runs of the models on concrete inputs.
pub mod Race
pub mod Connection
pub mod SocketManager
pub mod Gather
pub mod Security
pub mod Gathering
pub mod Udp
pub mod Lifetime
pub mod Quic
pub mod Groups
