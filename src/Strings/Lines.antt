-- ===== src/Strings/Lines.antt =====
-- `bufio.Scanner` over lines: the pieces of a text between its line ends, as they are scanned.
use sysbox_libs.Prelude.{
  Bool, Bytes, List, [], codes, false, if◌then◌else◌, length, ltb, not, ℕ, ◌||◌, ◌∷◌,
}
use sysbox_libs.Strings.Trim.{trim_suffix}

-- A line has to fit in the buffer of 64 KiB.
abbrev pub max_line : ℕ
max_line = 65536

abbrev pub fits : Bytes → Bool
fits l = ltb (length l) max_line

-- The lines that the scanner gives, without the line ends: nothing behind the last line end is no
-- line, and a line that does not fit ends the scan.
unfoldable pub scan_lines : List Bytes → List Bytes
scan_lines [] = []
scan_lines ([] ∷ []) = []
scan_lines ((c ∷ l) ∷ []) = if fits (c ∷ l) then trim_suffix (c ∷ l) (codes "\r") ∷ [] else []
scan_lines (l ∷ m ∷ ls) =
    let rest = scan_lines (m ∷ ls) in if fits l then trim_suffix l (codes "\r") ∷ rest else []

-- Whether a line ended the scan.
unfoldable pub stops_early : List Bytes → Bool
stops_early [] = false
stops_early (l ∷ ls) = let later = stops_early ls in not (fits l) || later
