-- ===== src/Gcs.antt =====
-- crates/ray-gcs: the global control store. The trait that a backend implements, the backend in
-- memory, and the handlers of the service.
pub mod Interface
pub mod Store
pub mod Messages
pub mod Translate
pub mod Server
pub mod Nodes
pub mod Lifecycle
pub mod Dead
pub mod Heartbeat
mod Tests
