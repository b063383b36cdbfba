-- ===== src/Presence.antt =====
-- The walk-away watch (faceauth-daemon/src/presence).
pub mod Config
pub mod Watch
pub mod Verdict
pub mod OpenBound
pub mod Traces
pub mod Lock
pub mod Unlock
