-- ===== src/Sync.antt =====
-- crates/kr0ki-core/src/sync_engine.rs: the elements of a model server, the changes that reconcile
-- them with those that are wanted, and the loop that commits the changes.
pub mod Model
pub mod Diff
pub mod Engine
pub mod Examples
