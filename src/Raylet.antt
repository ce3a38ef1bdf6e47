-- ===== src/Raylet.antt =====
-- crates/ray-raylet: the daemon of one node. Resources, workers, the executor, and the scheduler
-- that ties them together.
pub mod ResourceManager
pub mod Worker
pub mod Executor
pub mod Scheduler
pub mod Server
mod Tests
