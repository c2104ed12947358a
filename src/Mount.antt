-- ===== src/Mount.antt =====
-- mount/: the table of mounts.
pub mod Flags
pub mod Bits
pub mod Options
pub mod Search
pub mod Line
pub mod Parse
pub mod Table
mod Examples
