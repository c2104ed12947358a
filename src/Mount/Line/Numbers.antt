-- ===== src/Mount/Line/Numbers.antt =====
-- The numbers of a line of the table of mounts are fields of it, for mount/mount_linux.go.
use sysbox_libs.Prelude.{
  Bytes, [], all, any-append, ap, arith, codes, false, refl, sym, true, ℕ, ◌++◌, ◌==◌, ◌∙◌, ◌∷◌,
  ◌≡◌, ◌≢◌, nat_comparable, bytes_comparable,
}
use sysbox_libs.Mount.Line.Separator.{IsField}
use sysbox_libs.Strings.Fields.{format_uint-IsWord, is_outside}
use sysbox_libs.Strings.Trim.{Free, is_nil}
use sysbox_libs.Strings.Decimal.{format_uint, format_uint-digits, format_uint-ne-nil, is_digit}
use mathlib.Core.List.{append-nil}

digits-not_dash : (w s : Bytes) → all is_digit w ≡ true → w ≢ [] → ((w ++ s) == codes "-") ≡ false
digits-not_dash [] s d h = absurd (h refl)
digits-not_dash (c ∷ w) s d h = ground (arith, d)

device-Free : (major minor : ℕ) → Free is_outside (format_uint major ++ b':' ∷ format_uint minor)
device-Free major minor = grind (
  arith,
  any-append is_outside (format_uint major) (b':' ∷ format_uint minor),
  (format_uint-IsWord major).0,
  (format_uint-IsWord minor).0,
)

device-is_nil : (w s : Bytes) → is_nil w ≡ false → is_nil (w ++ s) ≡ false
device-is_nil [] s h = absurd (ground (arith, h))
device-is_nil (c ∷ w) s h = refl

pub number-IsField : (n : ℕ) → IsField (format_uint n)
number-IsField n = (
  format_uint-IsWord n,
  ap (λ w. w == codes "-") (sym (append-nil (format_uint n)))
      ∙ digits-not_dash (format_uint n) [] (format_uint-digits n) (format_uint-ne-nil n),
)

pub device-IsField : (major minor : ℕ) → IsField (format_uint major ++ b':' ∷ format_uint minor)
device-IsField major minor = (
  (
    device-Free major minor,
    device-is_nil (format_uint major) (b':' ∷ format_uint minor) (format_uint-IsWord major).1,
  ),
  digits-not_dash (format_uint major) (b':' ∷ format_uint minor) (format_uint-digits major)
      (format_uint-ne-nil major),
)
