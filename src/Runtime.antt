-- ===== src/Runtime.antt =====
-- crates/punkgo-kernel/src/runtime: what the kernel does with the tables.
pub mod Lifecycle
pub mod Admission
pub mod Payload
pub mod Charge
pub mod Commit
pub mod World
pub mod Holds
pub mod Creation
pub mod Submit
pub mod Evolution
pub mod Depth
pub mod Outcome
pub mod History
pub mod EnergyProducer
