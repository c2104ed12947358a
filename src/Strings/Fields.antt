-- ===== src/Strings/Fields.antt =====
-- `strings.Fields`.
use sysbox_libs.Strings.Split.{join}
use sysbox_libs.Prelude.{
  All, Bytes, List, [], all, ap, arith, codes, false, if◌then◌else◌, leb, refl, Bool, ◌||◌, sym,
  true, ℕ, ◌++◌, ◌∙◌, ◌∷◌, ◌≡◌, ◌≢◌,
}
use sysbox_libs.Strings.Utf8.{IsAscii, plain_spaces, plain_spaces-append, plain_spaces-cons}
use sysbox_libs.Strings.Trim.{Free, is_nil, is_space}
use sysbox_libs.Strings.Decimal.{format_uint, format_uint-digits, format_uint-ne-nil, is_digit}
use mathlib.Core.List.{append-nil}

-- A word that has ended, in front of the later ones.
push_word : Bytes → List Bytes → List Bytes
push_word [] ws = ws
push_word (c ∷ w) ws = (c ∷ w) ∷ ws

-- The word that the text begins with, empty at white space, and the later ones.
words : Bytes → Bytes × List Bytes
unfolding push_word
words [] = ([], [])
words (c ∷ s) =
    let rest = words s in if is_space c then ([], push_word rest.0 rest.1) else (c ∷ rest.0, rest.1)

ascii_fields : Bytes → List Bytes
unfolding words push_word
ascii_fields s = push_word (words s).0 (words s).1

-- White space beyond ASCII parts the text as a blank does.
unfoldable pub fields : Bytes → List Bytes
unfolding ascii_fields
fields s = ascii_fields (plain_spaces s)

fields_test :
    fields (codes "  0  165536\t65536\n") ≡ codes "0" ∷ codes "165536" ∷ codes "65536" ∷ []
unfolding fields plain_spaces
fields_test = refl

-- White space, or no ASCII.
abbrev pub is_outside : ℕ → Bool
is_outside c = is_space c || leb 0x80 c

-- A word of at least one byte, all of them ASCII.
abbrev pub IsWord : Bytes → Type 0
IsWord w = Free is_outside w × (is_nil w ≡ false)

words-append : (w s : Bytes) → Free is_outside w → words (w ++ s) ≡ (w ++ (words s).0, (words s).1)
unfolding words
words-append [] s h = refl
words-append (c ∷ w) s h = ground (arith, words-append w s)

words-space : (c : ℕ) (s : Bytes) → is_space c ≡ true → words (c ∷ s) ≡ ([], ascii_fields s)
unfolding words ascii_fields
words-space c s h = rw h refl

push_word-word : (w : Bytes) (ws : List Bytes) → IsWord w → push_word w ws ≡ w ∷ ws
unfolding push_word
push_word-word [] ws h = absurd (ground (arith, h.1))
push_word-word (c ∷ w) ws h = refl

pub word-IsAscii : (w : Bytes) → Free is_outside w → IsAscii w
word-IsAscii [] h = refl
word-IsAscii (c ∷ w) h = ground (arith, word-IsAscii w)

-- A word and white space behind it.
pub fields-append :
    (w : Bytes) (c : ℕ) (s : Bytes)
    → IsWord w
    → is_space c ≡ true
    → fields (w ++ c ∷ s) ≡ w ∷ fields s
fields-append w c s h e =
    unfold fields in
    rw
      (
        plain_spaces-append w (c ∷ s) (word-IsAscii w h.0),
        plain_spaces-cons c s (ground (arith, e)),
      )
      (unfold ascii_fields in
        rw (words-append w (c ∷ plain_spaces s) h.0, words-space c (plain_spaces s) e, append-nil w)
          (push_word-word w (push_word (words (plain_spaces s)).0 (words (plain_spaces s)).1) h))

pub fields-space : (c : ℕ) (s : Bytes) → is_space c ≡ true → fields (c ∷ s) ≡ fields s
fields-space c s h =
    unfold fields in
    rw (plain_spaces-cons c s (ground (arith, h))) (
      unfold ascii_fields in
      rw (words-space c (plain_spaces s) h) (unfold push_word ascii_fields in refl))

-- A word alone.
pub fields-word : (w : Bytes) → IsWord w → fields w ≡ w ∷ []
fields-word w h = ap fields (sym (append-nil w)) ∙ fields-end
  where
    fields-end : fields (w ++ []) ≡ w ∷ []
    fields-end =
        unfold fields in
        rw (plain_spaces-append w [] (word-IsAscii w h.0)) (
          unfold ascii_fields plain_spaces in
          rw (words-append w [] h.0) (unfold words in rw (append-nil w) (push_word-word w [] h)))

digits-Free : (s : Bytes) → all is_digit s ≡ true → Free is_outside s
digits-Free [] h = refl
digits-Free (c ∷ s) h = ground (arith, digits-Free s)

is_nil-ne : (s : Bytes) → s ≢ [] → is_nil s ≡ false
is_nil-ne [] h = absurd (h refl)
is_nil-ne (c ∷ s) h = refl

-- The print of a number is a word.
pub format_uint-IsWord : (n : ℕ) → IsWord (format_uint n)
format_uint-IsWord n = (
  digits-Free (format_uint n) (format_uint-digits n),
  is_nil-ne (format_uint n) (format_uint-ne-nil n),
)

-- Words that are joined by blanks are found again.
pub fields-join :
    (w : Bytes) (ws : List Bytes)
    → All IsWord (w ∷ ws)
    → fields (join (codes " ") (w ∷ ws)) ≡ w ∷ ws
unfolding join
fields-join w [] h = fields-word w h.0
fields-join w (v ∷ ws) h =
    fields-append w b' ' (join (codes " ") (v ∷ ws)) h.0 refl
    ∙ ap (λ l. w ∷ l) (fields-join v ws h.1)
