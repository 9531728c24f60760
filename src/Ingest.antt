-- ===== src/Ingest.antt =====
-- crates/kr0ki-raster-ingest/src: the bounded loop that turns an image into diagram-as-code.
pub mod Types
pub mod Calls
pub mod State
pub mod Judging
pub mod Run
pub mod CallCounts
pub mod Scoring
pub mod Labels
mod Examples
