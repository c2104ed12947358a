-- ===== src/PidMonitor.antt =====
-- pidmonitor: notification of process exits by polling.
pub mod Events
pub mod Validity
pub mod Monitor
pub mod Calls
pub mod Scan
pub mod Round
pub mod Trace
mod Known
pub mod Safety
pub mod Watch
pub mod Once
pub mod Progress
pub mod Marker
mod Examples
