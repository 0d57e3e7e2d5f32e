-- ===== src/Tests.antt =====
-- The theorems at concrete inputs, and runs of the model.
mod Versions
pub mod Resolving
mod Files
mod Blocks
mod Updates
mod Folders
mod Indexes
mod Advancing
mod Iterating
mod Relaying
mod Checking
mod ClusterUpdating
mod Exchanging
mod Assembling
mod Postponing
