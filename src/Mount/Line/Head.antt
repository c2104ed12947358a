-- ===== src/Mount/Line/Head.antt =====
-- What Sscanf reads from the front of a line of the table of mounts, for mount/mount_linux.go.
use sysbox_libs.Prelude.{Bytes, [], ap, arith, refl, some, ℕ, ◌++◌, ◌<◌, ◌^◌, ◌∙◌, ◌∷◌, ◌≡◌}
use sysbox_libs.Prelude.Int.{pos}
use sysbox_libs.Mount.Line.{scan_parts}
use sysbox_libs.Strings.Fields.{IsWord, format_uint-IsWord}
use sysbox_libs.Strings.Scan.{
  scan_blank, scan_blank-blank, scan_char, scan_int-format_uint, scan_word-append,
}
use sysbox_libs.Strings.Trim.{is_space, trim_left}
use sysbox_libs.Strings.Decimal.{format_uint}

trim_left-word : (w s : Bytes) → IsWord w → trim_left is_space (w ++ s) ≡ w ++ s
unfolding trim_left
trim_left-word [] s h = absurd (ground (arith, h.1))
trim_left-word (c ∷ w) s h = ground (arith, h.0)

-- A blank of the format in front of a word.
blank_word : (w s : Bytes) → IsWord w → scan_blank (b' ' ∷ (w ++ s)) ≡ some (w ++ s)
blank_word w s h = scan_blank-blank b' ' (w ++ s) refl ∙ ap some (trim_left-word w s h)

pub scan_eight :
    (id parent major minor : ℕ) (root mountpoint opts optional rest : Bytes)
    → id < 2 ^ 63
    → parent < 2 ^ 63
    → major < 2 ^ 63
    → minor < 2 ^ 63
    → IsWord root
    → IsWord mountpoint
    → IsWord opts
    → IsWord optional
    → scan_parts (
        format_uint id
        ++ b' '
          ∷ (format_uint parent
              ++ b' '
                ∷ (format_uint major
                    ++ b':'
                      ∷ (format_uint minor
                          ++ b' '
                            ∷ (root
                                ++ b' '
                                  ∷ (mountpoint
                                      ++ b' ' ∷ (opts ++ b' ' ∷ (optional ++ b' ' ∷ rest))))))))
      ≡ some (
        record {
          id = pos id;
          parent = pos parent;
          major = pos major;
          minor = pos minor;
          root = root;
          mountpoint = mountpoint;
          opts = opts;
          optional = [];
          fstype = [];
          source = [];
          vfs_opts = [];
        },
        optional,
      )
unfolding scan_parts sysbox_libs.Strings.Scan.scan_char
scan_eight id parent major minor root mountpoint opts optional rest h1 h2 h3 h4 w1 w2 w3 w4 =
    let s7 = optional ++ b' ' ∷ rest in
    let s6 = opts ++ b' ' ∷ s7 in
    let s5 = mountpoint ++ b' ' ∷ s6 in
    let s4 = root ++ b' ' ∷ s5 in
    let s3 = format_uint minor ++ b' ' ∷ s4 in
    let s2 = format_uint major ++ b':' ∷ s3 in
    let s1 = format_uint parent ++ b' ' ∷ s2 in
    rw
      (
        scan_int-format_uint id b' ' s1 h1 refl,
        blank_word (format_uint parent) (b' ' ∷ s2) (format_uint-IsWord parent),
        scan_int-format_uint parent b' ' s2 h2 refl,
        blank_word (format_uint major) (b':' ∷ s3) (format_uint-IsWord major),
        scan_int-format_uint major b':' s3 h3 refl,
        scan_int-format_uint minor b' ' s4 h4 refl,
        blank_word root (b' ' ∷ s5) w1,
        scan_word-append root b' ' s5 w1 refl,
        blank_word mountpoint (b' ' ∷ s6) w2,
        scan_word-append mountpoint b' ' s6 w2 refl,
        blank_word opts (b' ' ∷ s7) w3,
        scan_word-append opts b' ' s7 w3 refl,
        blank_word optional (b' ' ∷ rest) w4,
        scan_word-append optional b' ' rest w4 refl,
      )
      refl
