-- ===== src/Pam.antt =====
-- The PAM module (pam_faceauth/src/lib.rs).
pub mod Request
pub mod Module
pub mod Json
pub mod Wire
pub mod Verdict
