-- ===== src/Enrol.antt =====
-- The enrolment walk-through (faceauth-daemon/src/enrol): its steps and its session.
pub mod Steps
pub mod Recorded
pub mod Session
