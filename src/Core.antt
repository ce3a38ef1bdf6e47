-- ===== src/Core.antt =====
-- crates/ray-core: the types, errors and conversions that every other crate shares.
pub mod Error
pub mod Id
pub mod Resources
pub mod Serialize
pub mod Types
pub mod Proto
pub mod Convert
pub mod Status
mod Tests
