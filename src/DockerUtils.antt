-- ===== src/DockerUtils.antt =====
-- dockerUtils/dockerUtils.go.
pub mod Client
pub mod Rootfs
pub mod Levels
pub mod Sessions
mod Examples
