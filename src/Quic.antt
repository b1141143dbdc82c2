-- ===== src/Quic.antt =====
-- The QUIC adapter: src/protocol/quic/quic.c.
pub mod Streams
pub mod Closing
pub mod Order
pub mod Alpn
pub mod Probing
pub mod Groups
