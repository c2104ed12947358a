-- ===== src/LinuxUtils.antt =====
-- linuxUtils/linux.go, and the kernel check of idMap/helpers.go.
pub mod Kernel
pub mod Versions
pub mod Userns
pub mod Distro
pub mod Child
pub mod Shm
mod Examples
