-- ===== src/LinuxUtils/Versions.antt =====
-- What the kernel version checks of linuxUtils and idMap come to.
use sysbox_libs.Prelude.{
  Bytes, List, Option, Result, [], ap, arith, contains-append, err, none, not, ok, refl, some, sym,
  ℕ, ◌++◌, ◌<◌, ◌>>=◌, ◌^◌, ◌↔◌, ◌∙◌, ◌∷◌, ◌≡◌, ◌⊎◌, nat_comparable, bytes_comparable,
}
use sysbox_libs.Prelude.Int.{ltb_ℤ, negsuc, pos, ℤ}
use sysbox_libs.Strings.Split.{Lacks, split, split-append, split-whole}
use sysbox_libs.Strings.Decimal.{format_uint, format_uint-lacks}
use sysbox_libs.Strings.Atoi.{atoi, atoi-format_uint}
use sysbox_libs.LinuxUtils.Kernel.{
  Error, both, check_kernel_version, compare_parts, compare_versions, from_parts,
  get_kernel_release, is_new_enough, kernel_current_version_cmp, number, parse_kernel_release,
  release_text,
}
use mathlib.Core.List.{append-nil}

both-number :
    (rel : Bytes) (a b : ℤ) (m0 m1 : Option ℤ)
    → (number rel m0 >>= λ n0. number rel m1 >>= λ n1. ok (compare_versions a b n0 n1))
      ≡ (both rel m0 m1 >>= λ v. ok (compare_versions a b v.0 v.1))
unfolding number both
both-number rel a b (some n0) (some n1) = refl
both-number rel a b (some n0) none = refl
both-number rel a b none m1 = refl

compare_parts-from_parts :
    (rel : Bytes) (a b : ℤ) (parts : List Bytes)
    → compare_parts rel a b parts
      ≡ (from_parts rel parts >>= λ v. ok (compare_versions a b v.0 v.1))
unfolding compare_parts from_parts
compare_parts-from_parts rel a b [] = refl
compare_parts-from_parts rel a b (s0 ∷ []) = refl
compare_parts-from_parts rel a b (s0 ∷ s1 ∷ rest) = both-number rel a b (atoi s0) (atoi s1)

on_release :
    (a b : ℤ) (r : Result Error Bytes)
    → (r >>= λ rel. compare_parts rel a b (split b'.' rel))
      ≡ (r >>= λ rel. parse_kernel_release rel >>= λ v. ok (compare_versions a b v.0 v.1))
unfolding parse_kernel_release
on_release a b (ok rel) = compare_parts-from_parts rel a b (split b'.' rel)
on_release a b (err e) = refl

-- KernelCurrentVersionCmp fails exactly where reading or parsing the release fails, with the same
-- error, and otherwise compares the version that ParseKernelRelease gives.
pub kernel_current_version_cmp-parse_kernel_release :
    (uname : Result ℕ Bytes) (a b : ℤ)
    → kernel_current_version_cmp uname a b ≡ (
        get_kernel_release uname >>= λ rel.
        parse_kernel_release rel >>= λ v. ok (compare_versions a b v.0 v.1))
unfolding kernel_current_version_cmp
kernel_current_version_cmp-parse_kernel_release uname a b =
    on_release a b (get_kernel_release uname)

is_new_enough-compare_versions :
    (a b major minor : ℤ)
    → is_new_enough a b major minor ≡ not (ltb_ℤ (compare_versions a b major minor) (pos 0))
unfolding is_new_enough compare_versions
is_new_enough-compare_versions a b major minor = ground arith

checked_release :
    (a b : ℤ) (r : Result Error (ℤ × ℤ))
    → (r >>= λ v. ok (is_new_enough a b v.0 v.1))
      ≡ ((r >>= λ v. ok (compare_versions a b v.0 v.1)) >>= λ c. ok (not (ltb_ℤ c (pos 0))))
checked_release a b (ok (major, minor)) = ap ok (is_new_enough-compare_versions a b major minor)
checked_release a b (err e) = refl

on_read :
    (a b : ℤ) (r : Result Error Bytes)
    → (r >>= λ rel. parse_kernel_release rel >>= λ v. ok (is_new_enough a b v.0 v.1)) ≡ (
        (r >>= λ rel. parse_kernel_release rel >>= λ v. ok (compare_versions a b v.0 v.1)) >>= λ c.
        ok (not (ltb_ℤ c (pos 0))))
on_read a b (ok rel) = checked_release a b (parse_kernel_release rel)
on_read a b (err e) = refl

-- checkKernelVersion of idMap and KernelCurrentVersionCmp of linuxUtils agree: the one says yes
-- exactly where the other gives 0 or 1, and both fail with the same error.
pub check_kernel_version-kernel_current_version_cmp :
    (uname : Result ℕ Bytes) (a b : ℤ)
    → check_kernel_version uname a b
      ≡ (kernel_current_version_cmp uname a b >>= λ c. ok (not (ltb_ℤ c (pos 0))))
unfolding check_kernel_version
check_kernel_version-kernel_current_version_cmp uname a b =
    on_read a b (get_kernel_release uname)
    ∙ ap (λ r. r >>= λ c. ok (not (ltb_ℤ c (pos 0))))
        (sym (kernel_current_version_cmp-parse_kernel_release uname a b))

-- What follows the minor number: nothing, or a point and more.
abbrev pub with_point : Option Bytes → Bytes
with_point none = []
with_point (some rest) = b'.' ∷ rest

-- A release that begins with the two numbers.
abbrev pub release : ℕ → ℕ → Option Bytes → Bytes
release major minor more = format_uint major ++ b'.' ∷ (format_uint minor ++ with_point more)

release_text-append : (s junk : Bytes) → Lacks 0 s → release_text (s ++ 0 ∷ junk) ≡ some s
unfolding release_text
release_text-append [] junk h = refl
release_text-append (c ∷ s) junk h = ground (arith, release_text-append s junk)

release-Lacks :
    (major minor : ℕ) (more : Option Bytes)
    → Lacks 0 (with_point more)
    → Lacks 0 (release major minor more)
release-Lacks major minor more h = grind (
  arith,
  format_uint-lacks 0 major refl,
  format_uint-lacks 0 minor refl,
  contains-append (format_uint major) (b'.' ∷ (format_uint minor ++ with_point more)) 0,
  contains-append (format_uint minor) (with_point more) 0,
  h,
)

minor_first :
    (minor : ℕ) (more : Option Bytes)
    → (rest : List Bytes) × (split b'.' (format_uint minor ++ with_point more)
        ≡ format_uint minor ∷ rest)
minor_first minor none = (
  [],
  ap (split b'.') (append-nil (format_uint minor))
      ∙ split-whole b'.' (format_uint minor) (format_uint-lacks b'.' minor refl),
)
minor_first minor (some more) = (
  split b'.' more,
  split-append b'.' (format_uint minor) more (format_uint-lacks b'.' minor refl),
)

-- ParseKernelRelease gives back the two numbers that a release begins with.
pub parse_kernel_release-release :
    (major minor : ℕ) (more : Option Bytes)
    → major < 2 ^ 63
    → minor < 2 ^ 63
    → parse_kernel_release (release major minor more) ≡ ok (pos major, pos minor)
unfolding parse_kernel_release
parse_kernel_release-release major minor more hm hn =
    let (rest, eq) = minor_first minor more in
    rw
      (
        split-append b'.' (format_uint major) (format_uint minor ++ with_point more)
            (format_uint-lacks b'.' major refl),
        eq,
      )
      (unfold from_parts both in rw (atoi-format_uint major hm, atoi-format_uint minor hn) refl)

get_kernel_release-ok :
    (s junk : Bytes) → Lacks 0 s → get_kernel_release (ok (s ++ 0 ∷ junk)) ≡ ok s
unfolding get_kernel_release
get_kernel_release-ok s junk h = rw (release_text-append s junk h) refl

-- One version is later than another.
abbrev pub IsLater : ℕ → ℕ → ℕ → ℕ → Type 0
IsLater major minor a b = (a < major) ⊎ ((a ≡ major) × (b < minor))

compare_versions-pos :
    (a b major minor : ℕ)
    → ((compare_versions (pos a) (pos b) (pos major) (pos minor) ≡ pos 1) ↔ IsLater major minor a b)
      × ((compare_versions (pos a) (pos b) (pos major) (pos minor) ≡ pos 0)
          ↔ ((major ≡ a) × (minor ≡ b)))
      × ((compare_versions (pos a) (pos b) (pos major) (pos minor) ≡ negsuc 0)
          ↔ IsLater a b major minor)
unfolding compare_versions
compare_versions-pos a b major minor = (ground arith, ground arith, ground arith)

pub release-compare_versions :
    (major minor a b : ℕ) (more : Option Bytes) (junk : Bytes)
    → major < 2 ^ 63
    → minor < 2 ^ 63
    → Lacks 0 (with_point more)
    → kernel_current_version_cmp (ok (release major minor more ++ 0 ∷ junk)) (pos a) (pos b)
      ≡ ok (compare_versions (pos a) (pos b) (pos major) (pos minor))
release-compare_versions major minor a b more junk hm hn clean =
    kernel_current_version_cmp-parse_kernel_release (ok (release major minor more ++ 0 ∷ junk))
      (pos a) (pos b)
    ∙ rw
        (get_kernel_release-ok (release major minor more) junk
          (release-Lacks major minor more clean))
        (rw (parse_kernel_release-release major minor more hm hn) refl)

-- If the kernel's release begins with two numbers below 2^63 and a point between them, and nothing
-- or a further point behind them, then KernelCurrentVersionCmp succeeds: it gives 1 exactly if
-- that version is later than the given one, 0 exactly if it is the same, and -1 exactly if it is
-- earlier.
pub kernel_current_version_cmp-release :
    (major minor a b : ℕ) (more : Option Bytes) (junk : Bytes)
    → major < 2 ^ 63
    → minor < 2 ^ 63
    → Lacks 0 (with_point more)
    → (c : ℤ) × (kernel_current_version_cmp
          (ok (release major minor more ++ 0 ∷ junk))
          (pos a)
          (pos b)
        ≡ ok c)
      × ((c ≡ pos 1) ↔ IsLater major minor a b)
      × ((c ≡ pos 0) ↔ ((major ≡ a) × (minor ≡ b)))
      × ((c ≡ negsuc 0) ↔ IsLater a b major minor)
kernel_current_version_cmp-release major minor a b more junk hm hn clean =
    let order = compare_versions-pos a b major minor in
    (
      compare_versions (pos a) (pos b) (pos major) (pos minor),
      release-compare_versions major minor a b more junk hm hn clean,
      order.0,
      order.1,
      order.2,
    )
