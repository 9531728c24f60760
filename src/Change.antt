-- ===== src/Change.antt =====
-- crates/kr0ki-core/src/change_service.rs: changes that are proposed against a base revision, and
-- committed only on top of it.
pub mod Model
pub mod Service
pub mod InMemory
pub mod Tasks
mod Outcomes
mod Acceptance
mod Settling
pub mod Sysml
mod Examples
