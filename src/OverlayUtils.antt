-- ===== src/OverlayUtils.antt =====
-- overlayUtils/overlayUtils.go: the options of an overlayfs mount.
pub mod Options
pub mod Layers
pub mod Parts
mod Examples
