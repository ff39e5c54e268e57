-- ===== src/Tools.antt =====
-- scripts/resolve_worker_tools.py: the closure of the worker tools in a package catalogue.
pub mod Catalog
pub mod Order
pub mod Resolve
pub mod Zbase32
pub mod Verify
