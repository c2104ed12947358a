-- ===== src/LinuxUtils/Examples.antt =====
-- Concrete runs of the kernel version checks.
use sysbox_libs.Strings.Decimal.{parse_uint}
use sysbox_libs.Strings.Atoi.{atoi}
use sysbox_libs.Strings.Split.{split}
use sysbox_libs.LinuxUtils.Kernel.{
  bad_release, binfmt_misc_namespacing_supported, compare_versions, get_kernel_release,
  kernel_current_version_cmp, release_text,
}
use sysbox_libs.Prelude.{[], arith, codes, err, ok, refl, some, true, ℕ, ◌++◌, ◌↔◌, ◌∷◌, ◌≡◌}
use sysbox_libs.Prelude.Int.{negsuc, pos, ℤ}
use sysbox_libs.LinuxUtils.Versions.{IsLater, kernel_current_version_cmp-release, release}

kernel_current_version_cmp-release_example :
    (c : ℤ) × (kernel_current_version_cmp
        (ok (release 6 8 (some (codes "0-45")) ++ 0 ∷ 0 ∷ []))
        (pos 6)
        (pos 7)
      ≡ ok c)
    × ((c ≡ pos 1) ↔ IsLater 6 8 6 7)
    × ((c ≡ pos 0) ↔ ((◌≡◌ {A = ℕ} 6 6) × (◌≡◌ {A = ℕ} 8 7)))
    × ((c ≡ negsuc 0) ↔ IsLater 6 7 6 8)
kernel_current_version_cmp-release_example =
    kernel_current_version_cmp-release 6 8 6 7 (some (codes "0-45")) (0 ∷ []) (omega arith)
      (omega arith) refl

cmp_test :
    kernel_current_version_cmp (ok (codes "5.15.0-91-generic" ++ 0 ∷ 0 ∷ [])) (pos 5) (pos 19)
    ≡ ok (negsuc 0)
unfolding kernel_current_version_cmp get_kernel_release release_text split atoi parse_uint
    compare_versions
cmp_test = refl

-- A release candidate that is named with no third number is refused.
candidate_test :
    kernel_current_version_cmp (ok (codes "6.1-rc1" ++ 0 ∷ [])) (pos 5) (pos 19)
    ≡ err (bad_release (codes "6.1-rc1"))
unfolding kernel_current_version_cmp get_kernel_release release_text split atoi parse_uint
candidate_test = refl

binfmt_test : binfmt_misc_namespacing_supported (ok (codes "6.7.1" ++ 0 ∷ [])) ≡ ok true
unfolding binfmt_misc_namespacing_supported kernel_current_version_cmp get_kernel_release
    release_text split atoi parse_uint compare_versions
binfmt_test = refl
