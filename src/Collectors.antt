-- ===== src/Collectors.antt =====
-- The collectors (collectors/*.py): what a phase makes of the store.
pub mod Observe
pub mod Sweep
pub mod Gaps
pub mod History
pub mod CatchUp
pub mod Posts
