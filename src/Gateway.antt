-- ===== src/Gateway.antt =====
-- crates/kr0ki-server/src/gateway.rs: who calls, what the route needs, the audited decision, and
-- only then the handler.
pub mod Digest
pub mod Routes
pub mod Identities
pub mod Middleware
mod Examples
