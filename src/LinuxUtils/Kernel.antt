-- ===== src/LinuxUtils/Kernel.antt =====
-- The kernel release in linuxUtils/linux.go, and its client checkKernelVersion of idMap/helpers.go.
-- `uname` is what the system call gives: an error, or the bytes of `utsname.Release`.
use sysbox_libs.Prelude.{
  ℕ, Bool, true, false, not, ◌&&◌, Option, none, some, List, [], ◌∷◌, Bytes, nat_beq, if◌then◌else◌,
  Result, ok, err, ◌>>=◌,
}
use sysbox_libs.Prelude.Int.{ℤ, pos, negsuc, ltb_ℤ, eq_ℤ}
use sysbox_libs.Strings.Split.{split}
use sysbox_libs.Strings.Atoi.{atoi}

-- `no_end` is the panic of the slice when the array holds no zero.
pub data Error : Type 0 where
  uname_failed : ℕ → Error
  bad_release : Bytes → Error
  no_end : Error

-- `Release[:n]` for the index `n` of the first zero.
after : ℕ → Option Bytes → Option Bytes
after c none = none
after c (some s) = some (c ∷ s)

unfoldable pub release_text : Bytes → Option Bytes
unfolding after
release_text [] = none
release_text (c ∷ s) = let rest = release_text s in if nat_beq c 0 then some [] else after c rest

text_or_panic : Option Bytes → Result Error Bytes
text_or_panic none = err no_end
text_or_panic (some rel) = ok rel

unfoldable pub get_kernel_release : Result ℕ Bytes → Result Error Bytes
unfolding text_or_panic
get_kernel_release (err e) = err (uname_failed e)
get_kernel_release (ok release) = text_or_panic (release_text release)

-- Both numbers must parse.
unfoldable pub both : Bytes → Option ℤ → Option ℤ → Result Error (ℤ × ℤ)
both rel (some major) (some minor) = ok (major, minor)
both rel (some major) none = err (bad_release rel)
both rel none minor = err (bad_release rel)

-- At least two parts are needed; those behind the second are not read.
unfoldable pub from_parts : Bytes → List Bytes → Result Error (ℤ × ℤ)
unfolding both
from_parts rel (major ∷ minor ∷ rest) = both rel (atoi major) (atoi minor)
from_parts rel (major ∷ []) = err (bad_release rel)
from_parts rel [] = err (bad_release rel)

unfoldable pub parse_kernel_release : Bytes → Result Error (ℤ × ℤ)
unfolding from_parts
parse_kernel_release rel = from_parts rel (split b'.' rel)

-- The comparison of `KernelCurrentVersionCmp`: `k2` is the version that runs.
unfoldable pub compare_versions : ℤ → ℤ → ℤ → ℤ → ℤ
compare_versions k1_major k1_minor k2_major k2_minor =
    if ltb_ℤ k1_major k2_major
    then pos 1
    else (if eq_ℤ k2_major k1_major && ltb_ℤ k1_minor k2_minor
        then pos 1
        else (if eq_ℤ k2_major k1_major && eq_ℤ k2_minor k1_minor then pos 0 else negsuc 0))

unfoldable pub number : Bytes → Option ℤ → Result Error ℤ
number rel none = err (bad_release rel)
number rel (some n) = ok n

-- The part of `KernelCurrentVersionCmp` behind its split, which reads the parts again.
unfoldable pub compare_parts : Bytes → ℤ → ℤ → List Bytes → Result Error ℤ
unfolding number
compare_parts rel k1_major k1_minor (s0 ∷ s1 ∷ rest) = do
  k2_major ← number rel (atoi s0)
  k2_minor ← number rel (atoi s1)
  ok (compare_versions k1_major k1_minor k2_major k2_minor)
compare_parts rel k1_major k1_minor (s0 ∷ []) = err (bad_release rel)
compare_parts rel k1_major k1_minor [] = err (bad_release rel)

unfoldable pub kernel_current_version_cmp : Result ℕ Bytes → ℤ → ℤ → Result Error ℤ
unfolding compare_parts
kernel_current_version_cmp uname k1_major k1_minor = do
  rel ← get_kernel_release uname
  compare_parts rel k1_major k1_minor (split b'.' rel)

unfoldable pub binfmt_misc_namespacing_supported : Result ℕ Bytes → Result Error Bool
binfmt_misc_namespacing_supported uname = do
  cmp ← kernel_current_version_cmp uname (pos 6) (pos 7)
  ok (not (ltb_ℤ cmp (pos 0)))

-- The test of `checkKernelVersion`.
unfoldable pub is_new_enough : ℤ → ℤ → ℤ → ℤ → Bool
is_new_enough req_maj req_min major minor =
    if ltb_ℤ major req_maj
    then false
    else (if eq_ℤ major req_maj && ltb_ℤ minor req_min then false else true)

unfoldable pub check_kernel_version : Result ℕ Bytes → ℤ → ℤ → Result Error Bool
check_kernel_version uname req_maj req_min = do
  rel ← get_kernel_release uname
  v ← parse_kernel_release rel
  ok (is_new_enough req_maj req_min v.0 v.1)
