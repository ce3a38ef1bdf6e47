-- ===== src/Scheduling.antt =====
-- crates/ray-scheduler: the global scheduler, its policies, and what a placement is.
pub mod Policy
pub mod Global
pub mod Selection
pub mod Placement
mod Tests
