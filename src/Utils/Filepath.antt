-- ===== src/Utils/Filepath.antt =====
-- FilepathSort of utils/filepath.go. `sort` stands for Go's `sort.Sort`.
pub mod Ancestors
mod Examples
use sysbox_libs.Prelude.{Bool, Bytes, List, length, ltb, ℕ}
use sysbox_libs.Strings.Path.{clean}
use sysbox_libs.Strings.Split.{split}

-- The number of elements between slashes.
unfoldable pub depth : Bytes → ℕ
depth path = length (split b'/' (clean path))

-- `Less`, of two paths.
unfoldable pub less : Bytes → Bytes → Bool
less p q = ltb (depth p) (depth q)

module _ (sort : (Bytes → Bytes → Bool) → List Bytes → List Bytes) where
  unfoldable pub filepath_sort : List Bytes → List Bytes
  filepath_sort paths = sort less paths
