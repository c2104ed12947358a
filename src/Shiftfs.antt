-- ===== src/Shiftfs.antt =====
-- shiftfs/shiftfs.go, and what it calls of linuxUtils/linux.go and utils/fs.go.
pub mod Check
pub mod Child
pub mod Lookups
pub mod Restores
mod Examples
