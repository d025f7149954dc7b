-- ===== src/State.antt =====
-- crates/punkgo-kernel/src/state: the tables of the database, each with its operations.
pub mod Ledger
pub mod EventLog
pub mod EnvelopeStore
pub mod ActorStore
pub mod AuditLog
pub mod Store
pub mod BlobStore
