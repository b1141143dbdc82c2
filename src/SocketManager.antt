-- ===== src/SocketManager.antt =====
-- The socket manager: src/connection/socket_manager/socket_manager.c.
pub mod State
pub mod Callbacks
pub mod Closing
pub mod Demux
