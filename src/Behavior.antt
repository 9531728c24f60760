-- ===== src/Behavior.antt =====
-- crates/kr0ki-behavior: the evidence IR, the transition table's validation and the table's runtime.
pub mod Model
pub mod Table
pub mod Runtime
pub mod Document
mod Examples
