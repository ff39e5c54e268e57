-- ===== src/Tests.antt =====
-- Runs of the models at concrete data, and the theorems applied to them.
mod Sample
mod Batches
mod Confirmed
mod Deleted
mod Planned
mod Sharded
mod Parted
mod Layered
mod Released
mod Gated
mod Due
mod Tooled
mod Downloaded
