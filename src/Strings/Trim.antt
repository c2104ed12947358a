-- ===== src/Strings/Trim.antt =====
-- `strings.Trim`, `TrimLeft`, `TrimRight` by a test on bytes, `strings.TrimSpace`, and
-- `strings.TrimSuffix`. White space is that of ASCII.
use sysbox_libs.Prelude.{
  Bool, Bytes, [], all, any, arith, bytes_beq, codes, false, if◌then◌else◌, leb, nat_beq, refl,
  true, ℕ, ◌&&◌, ◌++◌, ◌==◌, ◌||◌, ◌∙◌, ◌∷◌, ◌≡◌, ◌≢◌, nat_comparable, bytes_comparable,
}

abbrev pub is_blank : ℕ → Bool
is_blank c = nat_beq c b' '

abbrev pub is_space : ℕ → Bool
is_space c = nat_beq c 32 || (leb 9 c && leb c 13)

abbrev pub is_nil : Bytes → Bool
is_nil [] = true
is_nil (c ∷ s) = false

unfoldable pub trim_left : (ℕ → Bool) → Bytes → Bytes
trim_left p [] = []
trim_left p (c ∷ s) = let rest = trim_left p s in if p c then rest else c ∷ s

unfoldable pub trim_right : (ℕ → Bool) → Bytes → Bytes
trim_right p [] = []
trim_right p (c ∷ s) = let rest = trim_right p s in if p c && is_nil rest then [] else c ∷ rest

unfoldable pub trim : (ℕ → Bool) → Bytes → Bytes
trim p s = trim_right p (trim_left p s)

-- What stands before the suffix, if it is there.
unfoldable pub trim_suffix : Bytes → Bytes → Bytes
trim_suffix [] suffix = []
trim_suffix (c ∷ s) suffix =
    let rest = trim_suffix s suffix in if (c ∷ s) == suffix then [] else c ∷ rest

trim_test : trim is_space (codes " 123\n") ≡ codes "123"
unfolding trim trim_right trim_left
trim_test = refl

suffix_test : trim_suffix (codes "a\"b\"") (codes "\"") ≡ codes "a\"b"
unfolding trim_suffix
suffix_test = refl

-- Every byte passes.
abbrev pub Every : (ℕ → Bool) → Bytes → Type 0
Every p s = all p s ≡ true

-- No byte passes.
abbrev pub Free : (ℕ → Bool) → Bytes → Type 0
Free p s = any p s ≡ false

pub trim_left-append :
    (p : ℕ → Bool) (a s : Bytes) → Every p a → trim_left p (a ++ s) ≡ trim_left p s
unfolding trim_left
trim_left-append p [] s h = refl
trim_left-append p (c ∷ a) s h = ground (arith, trim_left-append p a s)

pub trim_right-Every : (p : ℕ → Bool) (a : Bytes) → Every p a → trim_right p a ≡ []
unfolding trim_right
trim_right-Every p [] h = refl
trim_right-Every p (c ∷ a) h = ground (arith, trim_right-Every p a)

pub trim_left-Free : (p : ℕ → Bool) (s : Bytes) → Free p s → trim_left p s ≡ s
unfolding trim_left
trim_left-Free p [] h = refl
trim_left-Free p (c ∷ s) h = ground (arith)

pub trim_right-Free :
    (p : ℕ → Bool) (s a : Bytes) → Free p s → Every p a → trim_right p (s ++ a) ≡ s
unfolding trim_right
trim_right-Free p [] a h e = trim_right-Every p a e
trim_right-Free p (c ∷ s) a h e = ground (arith, trim_right-Free p s a)

trim_left-Every : (p : ℕ → Bool) (a : Bytes) → Every p a → trim_left p a ≡ []
unfolding trim_left
trim_left-Every p [] h = refl
trim_left-Every p (c ∷ a) h = ground (arith, trim_left-Every p a)

trim_left-stop : (p : ℕ → Bool) (c : ℕ) (s : Bytes) → p c ≡ false → trim_left p (c ∷ s) ≡ c ∷ s
unfolding trim_left
trim_left-stop p c s h = rw h refl

trim-Free : (p : ℕ → Bool) (s b : Bytes) → Free p s → Every p b → trim p (s ++ b) ≡ s
unfolding trim
trim-Free p [] b h e = rw (trim_left-Every p b e) (unfold trim_right in refl)
trim-Free p (c ∷ s) b h e =
    rw (trim_left-stop p c (s ++ b) (ground arith)) (trim_right-Free p (c ∷ s) b h e)

-- What is free of the bytes is left when they stand around it.
pub trim-around :
    (p : ℕ → Bool) (a s b : Bytes) → Every p a → Free p s → Every p b → trim p (a ++ (s ++ b)) ≡ s
trim-around p a s b ha hs hb = trim-skip ∙ trim-Free p s b hs hb
  where
    trim-skip : trim p (a ++ (s ++ b)) ≡ trim p (s ++ b)
    trim-skip = unfold trim in rw (trim_left-append p a (s ++ b) ha) refl

append-ne : (s : Bytes) (x : ℕ) → bytes_beq (s ++ x ∷ []) [] ≡ false
append-ne [] x = refl
append-ne (c ∷ s) x = refl

-- A last byte that is the suffix goes, and another one keeps the text whole.
pub trim_suffix-append : (s : Bytes) (x : ℕ) → trim_suffix (s ++ x ∷ []) (x ∷ []) ≡ s
unfolding trim_suffix
trim_suffix-append [] x = ground arith
trim_suffix-append (c ∷ s) x = ground (arith, append-ne s x, trim_suffix-append s x)

pub trim_suffix-other :
    (s : Bytes) (x y : ℕ) → x ≢ y → trim_suffix (s ++ x ∷ []) (y ∷ []) ≡ s ++ x ∷ []
unfolding trim_suffix
trim_suffix-other [] x y h = ground (arith, h)
trim_suffix-other (c ∷ s) x y h = ground (arith, append-ne s x, trim_suffix-other s x y h)
