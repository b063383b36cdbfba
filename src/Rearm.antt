-- ===== src/Rearm.antt =====
-- The waits between rounds of a consent request (faceauth-daemon/src/auth/rearm.rs).
pub mod Gate
pub mod Wait
pub mod Arming
pub mod Clock
