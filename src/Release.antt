-- ===== src/Release.antt =====
-- scripts/release_lock.py: the sealed locks of Stable releases.
pub mod Lock
pub mod Withdrawn
pub mod Use
pub mod Gate
pub mod Images
