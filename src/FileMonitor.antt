-- ===== src/FileMonitor.antt =====
-- fileMonitor: notification of file removals by polling.
pub mod Monitor
pub mod Turn
pub mod Trace
pub mod Invariant
pub mod Safety
pub mod Restart
pub mod Ending
pub mod Unordered
pub mod Watch
mod Examples
