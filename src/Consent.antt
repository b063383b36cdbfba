-- ===== src/Consent.antt =====
-- The consent record (faceauth-daemon/src/consent).
pub mod Token
pub mod State
pub mod Card
pub mod Calls
pub mod Fairness
pub mod Turns
pub mod Guarded
pub mod Riding
