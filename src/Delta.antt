-- ===== src/Delta.antt =====
-- scripts/delta_closure.py and scripts/mirror_plan.py: which packages FreeSense builds itself, and
-- which it takes from the frozen upstream mirror.
pub mod Safe
pub mod Worklist
pub mod Records
pub mod Classify
pub mod Layers
pub mod Mirror
