-- ===== src/Server.antt =====
-- The daemon's socket side (faceauth-daemon/src/server).
pub mod ProcView
pub mod Locality
pub mod Admit
pub mod Read
pub mod Switch
pub mod Request
pub mod Answers
pub mod World
pub mod Lanes
pub mod Handle
pub mod Rounds
pub mod Slots
