-- ===== src/Core.antt =====
-- crates/punkgo-core: the types of the kernel, and its pure checks.
pub mod Errors
pub mod Json
pub mod Action
pub mod Policy
pub mod Actor
pub mod Boundary
pub mod Consent
