-- ===== src/IdShift.antt =====
-- idShiftUtils: shifting the user and group ids of a directory tree by chown.
pub mod Acl
pub mod Shift
pub mod DirIds
mod Examples
