-- ===== src/IdMap.antt =====
-- idMap/: ID-mapped mounts, and the checks whether the host supports them.
pub mod Mount
pub mod Check
pub mod Calls
pub mod Levels
pub mod Attach
pub mod Cleanup
pub mod Restores
pub mod Supported
pub mod Unsupported
pub mod Pause
pub mod Paths
mod Examples
