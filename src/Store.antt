-- ===== src/Store.antt =====
-- The template store (faceauth-daemon/src/store): what a set holds, the files, and what is done
-- with them.
pub mod Templates
pub mod Sealing
pub mod Disk
pub mod Files
pub mod Pruning
pub mod Enrolled
