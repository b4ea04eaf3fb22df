-- ===== src/Tests.antt =====
-- Runs of the code on small inputs, and the theorems at such inputs.
pub mod Paths
pub mod Stores
pub mod Commands
pub mod Texts
pub mod Saved
pub mod Removal
pub mod Filters
pub mod Walks
pub mod Changes
pub mod Sessions
pub mod Trees
pub mod Guards
