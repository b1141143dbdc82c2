-- ===== src/Security.antt =====
-- Security parameters: src/security_parameter/.
pub mod State
pub mod Setters
pub mod Certificates
pub mod DeepCopy
pub mod History
pub mod Bounds
pub mod Additions
pub mod Bundles
