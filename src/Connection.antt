-- ===== src/Connection.antt =====
-- A connection by itself: src/connection/connection.c.
pub mod Receive
pub mod Send
pub mod Pairing
pub mod ActiveEndpoint
