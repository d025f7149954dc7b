-- ===== src/Tests.antt =====
-- The theorems at concrete inputs, and small runs of the definitions.
mod Fixtures
mod Core
mod State
mod Runtime
mod Commit
mod Submit
mod Tree
mod Energy
mod Blobs
