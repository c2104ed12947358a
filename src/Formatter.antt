-- ===== src/Formatter.antt =====
-- formatter/containerID.go. Docker's `TruncateID` is a parameter.
use sysbox_libs.Prelude.{Bytes}

pub record ContainerId : Type 0 where
  pub id : Bytes

module _ (truncate_id : Bytes → Bytes) where
  unfoldable pub short_id : ContainerId → Bytes
  short_id cid = truncate_id cid.id

  unfoldable pub to_string : ContainerId → Bytes
  to_string cid = short_id cid

unfoldable pub long_id : ContainerId → Bytes
long_id cid = cid.id
