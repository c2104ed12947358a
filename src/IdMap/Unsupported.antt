-- ===== src/IdMap/Unsupported.antt =====
-- idMap/idMapMount_unsupported.go: the functions of the package in a build without ID-mapped
-- mounts. They call nothing.
use sysbox_libs.Prelude.{Bool, Bytes, codes, false}
use sysbox_libs.Host.{Program, refuse, return}

unfoldable pub id_map_mount : Bytes → Bytes → Bool → Program (Unit {0})
id_map_mount userns_path mount_path unmount_first =
    refuse (codes "idmapped mount unsupported in this Sysbox build.")

unfoldable pub id_map_mount_supported : Bytes → Program Bool
id_map_mount_supported dir = return false

unfoldable pub id_map_mount_supported_on_overlayfs : Bytes → Program Bool
id_map_mount_supported_on_overlayfs dir = return false

unfoldable pub id_map_mount_supported_on_path : Bytes → Program Bool
id_map_mount_supported_on_path path = return false

unfoldable pub overlayfs_on_id_map_mount_supported : Bytes → Program Bool
overlayfs_on_id_map_mount_supported dir = return false
