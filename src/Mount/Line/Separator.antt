-- ===== src/Mount/Line/Separator.antt =====
-- The separator of a line of the table of mounts, in mount/mount_linux.go.
use sysbox_libs.Prelude.{
  All, Bytes, List, [], arith, codes, false, none, refl, some, ℕ, ◌++◌, ◌==◌, ◌∙◌, ◌∷◌, ◌≡◌,
  nat_comparable, bytes_comparable,
}
use sysbox_libs.Mount.Line.{behind, or_later}
use sysbox_libs.Strings.Fields.{IsWord, is_outside}
use sysbox_libs.Strings.Affix.{strip_prefix}
use sysbox_libs.Strings.Trim.{Free}

-- Words with a blank behind each.
abbrev pub spaced : List Bytes → Bytes → Bytes
spaced [] rest = rest
spaced (w ∷ ws) rest = w ++ b' ' ∷ spaced ws rest

-- A word that is not the separator.
abbrev pub IsField : Bytes → Type 0
IsField w = IsWord w × ((w == codes "-") ≡ false)

abbrev pub sep : Bytes
sep = codes " - "

not_here : (c : ℕ) (s : Bytes) → strip_prefix sep (c ∷ s) ≡ none → behind sep (c ∷ s) ≡ behind sep s
unfolding behind or_later
not_here c s h = rw h refl

within_word : (w rest : Bytes) → Free is_outside w → behind sep (w ++ rest) ≡ behind sep rest
within_word [] rest h = refl
within_word (c ∷ w) rest h =
    not_here c (w ++ rest) (unfold strip_prefix in ground (arith, h))
    ∙ within_word w rest (ground (arith, h))

before_word :
    (w : Bytes) (d : ℕ) (rest : Bytes)
    → IsField w
    → behind sep (b' ' ∷ (w ++ d ∷ rest)) ≡ behind sep (w ++ d ∷ rest)
before_word [] d rest h = absurd (ground (arith, h.0.1))
before_word (c ∷ []) d rest h =
    not_here b' ' (c ∷ d ∷ rest) (unfold strip_prefix in ground (arith, h.1, h.0.0))
before_word (c ∷ e ∷ w) d rest h =
    not_here b' ' (c ∷ e ∷ (w ++ d ∷ rest)) (unfold strip_prefix in ground (arith, h.0.0))

-- The separator is found behind fields.
pub behind-spaced :
    (w : Bytes) (ws : List Bytes) (rest : Bytes)
    → All IsField (w ∷ ws)
    → behind sep (spaced (w ∷ ws) (codes "- " ++ rest)) ≡ some rest
behind-spaced w [] rest h =
    within_word w (codes " - " ++ rest) h.0.0.0 ∙ unfold behind or_later strip_prefix in refl
behind-spaced w (v ∷ ws) rest h =
    within_word w (b' ' ∷ spaced (v ∷ ws) (codes "- " ++ rest)) h.0.0.0
    ∙ before_word v b' ' (spaced ws (codes "- " ++ rest)) h.1.0
    ∙ behind-spaced v ws rest h.1
