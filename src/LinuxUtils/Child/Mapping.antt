-- ===== src/LinuxUtils/Child/Mapping.antt =====
-- The mapping that the child reads, in CreateUsernsProcess of linuxUtils/linux.go.
use mathlib.Core.List.{append_assoc}
use sysbox_libs.Prelude.{
  Bytes, List, [], ap, arith, refl, replicate, some, suc, true, zero, ℕ, ◌++◌, ◌<◌, ◌^◌, ◌∙◌, ◌∷◌,
  ◌≡◌,
}
use sysbox_libs.LinuxUtils.Child.{mapping_of, uint32}
use sysbox_libs.LinuxUtils.Userns.{IdMapping, mapping_text}
use sysbox_libs.Strings.Fields.{fields, fields-append, fields-space, format_uint-IsWord}
use sysbox_libs.Strings.Decimal.{format_uint}
use sysbox_libs.Strings.Atoi.{atoi_value, atoi_value-format_uint}
use sysbox_libs.Strings.Trim.{is_space}

-- The three numbers fit in 32 bits.
abbrev pub Fits : IdMapping → Type 0
Fits m = (m.container_id < 2 ^ 32) × (m.host_id < 2 ^ 32) × (m.size < 2 ^ 32)

abbrev pub spaces : ℕ → Bytes
spaces n = replicate n b' '

-- The line of a mapping file of the kernel, with blanks before each number.
abbrev pub map_line : IdMapping → ℕ → ℕ → ℕ → Bytes → Bytes
map_line m a b c rest =
    spaces a
    ++ (format_uint m.container_id
        ++ b' '
          ∷ (spaces b
              ++ (format_uint m.host_id
                  ++ b' ' ∷ (spaces c ++ (format_uint m.size ++ b'\n' ∷ rest)))))

fields-spaces : (n : ℕ) (s : Bytes) → fields (spaces n ++ s) ≡ fields s
fields-spaces zero s = refl
fields-spaces (suc n) s = fields-space b' ' (spaces n ++ s) refl ∙ fields-spaces n s

fields-number :
    (c n b : ℕ) (s : Bytes)
    → is_space c ≡ true
    → fields (spaces b ++ (format_uint n ++ c ∷ s)) ≡ format_uint n ∷ fields s
fields-number c n b s h =
    fields-spaces b (format_uint n ++ c ∷ s)
    ∙ fields-append (format_uint n) c s (format_uint-IsWord n) h

uint32-atoi_value : (n : ℕ) → n < 2 ^ 32 → uint32 (atoi_value (format_uint n)) ≡ n
uint32-atoi_value n h = rw (atoi_value-format_uint n (omega arith)) (omega (arith, h))

three_numbers :
    (c h s : ℕ) (rest : List Bytes)
    → c < 2 ^ 32
    → h < 2 ^ 32
    → s < 2 ^ 32
    → mapping_of (format_uint c ∷ format_uint h ∷ format_uint s ∷ rest)
      ≡ some (record { container_id = c; host_id = h; size = s })
unfolding mapping_of
three_numbers c h s rest hc hh hs =
    rw (uint32-atoi_value c hc, uint32-atoi_value h hh, uint32-atoi_value s hs) refl

mapping_of-map_line :
    (m : IdMapping) (a b c : ℕ) (rest : Bytes)
    → Fits m
    → mapping_of (fields (map_line m a b c rest)) ≡ some m
mapping_of-map_line m a b c rest h =
    ap mapping_of three_fields
    ∙ three_numbers m.container_id m.host_id m.size (fields rest) h.0 h.1 h.2
  where
    three_fields :
        fields (map_line m a b c rest)
        ≡ format_uint m.container_id ∷ format_uint m.host_id ∷ format_uint m.size ∷ fields rest
    three_fields =
        rw
          (
            fields-number b' ' m.container_id a
                (spaces b
                  ++ (format_uint m.host_id
                      ++ b' ' ∷ (spaces c ++ (format_uint m.size ++ b'\n' ∷ rest))))
                refl,
            fields-number b' ' m.host_id b (spaces c ++ (format_uint m.size ++ b'\n' ∷ rest)) refl,
            fields-number b'\n' m.size c rest refl,
          )
          refl

-- What one process writes the other reads: a mapping whose numbers fit in 32 bits is read back from
-- the text that the parent writes, and from the line that the kernel shows for it, whatever the
-- blanks before the numbers.
pub mapping_of-mapping_text :
    (m : IdMapping) (a b c : ℕ) (rest : Bytes)
    → Fits m
    → (mapping_of (fields (mapping_text m)) ≡ some m)
      × (mapping_of (fields (map_line m a b c rest)) ≡ some m)
mapping_of-mapping_text m a b c rest h = (
  ap (λ t. mapping_of (fields t)) text-line ∙ mapping_of-map_line m 0 0 0 [] h,
  mapping_of-map_line m a b c rest h,
)
  where
    text-line : mapping_text m ≡ map_line m 0 0 0 []
    text-line = unfold mapping_text in simp (append_assoc)
