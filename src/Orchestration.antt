-- ===== src/Orchestration.antt =====
-- orchestration/: what work comes next.
pub mod Graph
pub mod Chaining
pub mod Failures
pub mod Healing
