-- ===== src/Retention.antt =====
-- scripts/r2_retention.py: what the daily retention job keeps, deletes and when.
pub mod Keys
pub mod Runtime
pub mod Batch
pub mod Report
pub mod Confirm
pub mod Delete
pub mod Marker
pub mod Locks
pub mod Plan
