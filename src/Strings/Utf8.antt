-- ===== src/Strings/Utf8.antt =====
-- Go strings as texts of UTF-8: white space beyond ASCII, and bytes that are no UTF-8.
use sysbox_libs.Prelude.{
  Bool, Bytes, [], all, arith, if◌then◌else◌, leb, ltb, nat_beq, refl, suc, true, zero, ℕ, ◌&&◌,
  ◌∷◌, ◌≡◌, ◌||◌, ◌++◌, ◌<◌,
}

abbrev between : ℕ → ℕ → ℕ → Bool
between low high c = leb low c && leb c high

abbrev is_tail : ℕ → Bool
is_tail c = between 0x80 0xbf c

-- The byte at a place, and 0 behind the end.
abbrev byte_at : ℕ → Bytes → ℕ
byte_at n [] = 0
byte_at zero (c ∷ s) = c
byte_at (suc n) (c ∷ s) = byte_at n s

-- U+0085 and U+00A0.
abbrev is_latin_space : ℕ → ℕ → Bool
is_latin_space c d = nat_beq c 0xc2 && (nat_beq d 0x85 || nat_beq d 0xa0)

-- U+1680, U+2000 to U+200A, U+2028, U+2029, U+202F, U+205F and U+3000.
abbrev is_wide_space : ℕ → ℕ → ℕ → Bool
is_wide_space c d e =
    (nat_beq c 0xe1 && (nat_beq d 0x9a && nat_beq e 0x80))
    || ((nat_beq c 0xe2
          && ((nat_beq d 0x80
                && (between 0x80 0x8a e || (nat_beq e 0xa8 || (nat_beq e 0xa9 || nat_beq e 0xaf))))
              || (nat_beq d 0x81 && nat_beq e 0x9f)))
        || (nat_beq c 0xe3 && (nat_beq d 0x80 && nat_beq e 0x80)))

-- Each white space beyond ASCII gives way to a blank; `skip` bytes of one are still to be left out.
-- The first byte of such a space is never a later byte of a rune.
spaces_from : ℕ → Bytes → Bytes
spaces_from skip [] = []
spaces_from (suc skip) (c ∷ s) = spaces_from skip s
spaces_from zero (c ∷ s) =
    let kept = c ∷ spaces_from 0 s in
    let two = b' ' ∷ spaces_from 1 s in
    let three = b' ' ∷ spaces_from 2 s in
    if ltb c 0x80
    then kept
    else (if is_latin_space c (byte_at 0 s)
        then two
        else (if is_wide_space c (byte_at 0 s) (byte_at 1 s) then three else kept))

unfoldable pub plain_spaces : Bytes → Bytes
unfolding spaces_from
plain_spaces s = spaces_from 0 s

abbrev is_two : ℕ → ℕ → Bool
is_two c d = between 0xc2 0xdf c && is_tail d

abbrev is_three : ℕ → ℕ → ℕ → Bool
is_three c d e =
    ((nat_beq c 0xe0 && between 0xa0 0xbf d)
      || ((nat_beq c 0xed && between 0x80 0x9f d)
          || ((between 0xe1 0xec c || between 0xee 0xef c) && is_tail d)))
    && is_tail e

abbrev is_four : ℕ → ℕ → ℕ → ℕ → Bool
is_four c d e f =
    ((nat_beq c 0xf0 && between 0x90 0xbf d)
      || ((between 0xf1 0xf3 c && is_tail d) || (nat_beq c 0xf4 && between 0x80 0x8f d)))
    && (is_tail e && is_tail f)

-- A byte that begins no rune is read as U+FFFD; `more` bytes of a rune are still to be copied.
runes_from : ℕ → Bytes → Bytes
runes_from more [] = []
runes_from (suc more) (c ∷ s) = c ∷ runes_from more s
runes_from zero (c ∷ s) =
    let ascii = c ∷ runes_from 0 s in
    let two = c ∷ runes_from 1 s in
    let three = c ∷ runes_from 2 s in
    let four = c ∷ runes_from 3 s in
    let replaced = 0xef ∷ 0xbf ∷ 0xbd ∷ runes_from 0 s in
    if ltb c 0x80
    then ascii
    else (if is_two c (byte_at 0 s)
        then two
        else (if is_three c (byte_at 0 s) (byte_at 1 s)
            then three
            else (if is_four c (byte_at 0 s) (byte_at 1 s) (byte_at 2 s) then four else replaced)))

-- A text as a scan of its runes gives it back.
unfoldable pub rune_text : Bytes → Bytes
unfolding runes_from
rune_text s = runes_from 0 s

-- No-break spaces, an é, and a byte that is no UTF-8.
spaces_test :
    plain_spaces (0xc2 ∷ 0xa0 ∷ 0xc3 ∷ 0xa9 ∷ 0xe2 ∷ 0x80 ∷ 0xaf ∷ b'a' ∷ [])
    ≡ b' ' ∷ 0xc3 ∷ 0xa9 ∷ b' ' ∷ b'a' ∷ []
unfolding plain_spaces
spaces_test = refl

runes_test :
    rune_text (0xc3 ∷ 0xa9 ∷ 0xe2 ∷ b'a' ∷ []) ≡ 0xc3 ∷ 0xa9 ∷ 0xef ∷ 0xbf ∷ 0xbd ∷ b'a' ∷ []
unfolding rune_text
runes_test = refl

-- Every byte is ASCII.
abbrev pub IsAscii : Bytes → Type 0
IsAscii s = all (λ c. ltb c 0x80) s ≡ true

pub plain_spaces-IsAscii : (s : Bytes) → IsAscii s → plain_spaces s ≡ s
unfolding plain_spaces
plain_spaces-IsAscii [] h = refl
plain_spaces-IsAscii (c ∷ s) h = ground (arith, plain_spaces-IsAscii s, h)

pub rune_text-IsAscii : (s : Bytes) → IsAscii s → rune_text s ≡ s
unfolding rune_text
rune_text-IsAscii [] h = refl
rune_text-IsAscii (c ∷ s) h = ground (arith, rune_text-IsAscii s, h)

pub plain_spaces-append : (a s : Bytes) → IsAscii a → plain_spaces (a ++ s) ≡ a ++ plain_spaces s
unfolding plain_spaces
plain_spaces-append [] s h = refl
plain_spaces-append (c ∷ a) s h = ground (arith, plain_spaces-append a s, h)

pub plain_spaces-cons : (c : ℕ) (s : Bytes) → c < 128 → plain_spaces (c ∷ s) ≡ c ∷ plain_spaces s
unfolding plain_spaces
plain_spaces-cons c s h = ground (arith, h)
