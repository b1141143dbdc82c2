-- ===== src/Endpoint.antt =====
-- Socket addresses and the comparisons that the library makes of them.
pub mod Address
pub mod Scope
