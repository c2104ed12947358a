-- ===== src/Utils.antt =====
-- utils/: slices of strings and of mounts, the environment, paths, and pid files.
pub mod Slices
pub mod Unique
pub mod Compare
pub mod Env
pub mod Cmd
pub mod Filepath
pub mod PidFile
mod Examples
