-- ===== src/Mount/Bits.antt =====
-- The binary digits of what `|` makes of two numbers.
use sysbox_libs.Prelude.{
  Bool, ap, arith, false, nat_beq, refl, suc, zero, ℕ, ◌%◌, ◌*◌, ◌+◌, ◌-◌, ◌/◌, ◌^◌, ◌||◌, ◌∙◌, ◌≡◌,
  ◌≤◌,
}
use Prim.Native.Nat.{max, digits, bit_or, bit_or-bitwise}
use native.Mathlib.Nat.{pow-suc}

-- The native operation goes through a number of rounds of halving; a round beyond the first number
-- changes nothing.
extra_round :
    (rounds a b : ℕ)
    → a ≤ rounds
    → digits (λ y. y) max (suc rounds) a b ≡ digits (λ y. y) max rounds a b
extra_round zero zero b h = refl
extra_round zero (suc a) b h = absurd (omega arith)
extra_round (suc rounds) zero b h = refl
extra_round (suc rounds) (suc a) b h =
    ap (λ q. q * 2 + max (suc a % 2) (b % 2)) (extra_round rounds (suc a / 2) (b / 2) (omega arith))

settle : (more a b : ℕ) → digits (λ y. y) max (more + a) a b ≡ digits (λ y. y) max a a b
settle zero a b = ap (λ n. digits (λ y. y) max n a b) (omega arith)
settle (suc more) a b =
    ap (λ n. digits (λ y. y) max n a b) {y = suc (more + a)} (omega arith)
    ∙ extra_round (more + a) a b (omega arith)
    ∙ settle more a b

halved :
    (a b : ℕ) → digits (λ y. y) max a (suc a / 2) b ≡ digits (λ y. y) max (suc a / 2) (suc a / 2) b
halved a b =
    ap (λ n. digits (λ y. y) max n (suc a / 2) b) (omega arith)
    ∙ settle (a - suc a / 2) (suc a / 2) b

pub bit_or-halves : (a b : ℕ) → bit_or a b ≡ bit_or (a / 2) (b / 2) * 2 + max (a % 2) (b % 2)
bit_or-halves zero b = simp bit_or-bitwise (omega arith)
bit_or-halves (suc a) b = simp bit_or-bitwise (omega (arith, halved a (b / 2)))

-- The binary digit at a position.
abbrev pub bit : ℕ → ℕ → Bool
bit n zero = nat_beq (n % 2) 1
bit n (suc k) = bit (n / 2) k

pub bit-bit_or : (a b k : ℕ) → bit (bit_or a b) k ≡ (bit a k || bit b k)
bit-bit_or a b zero = ground (arith, bit_or-halves a b)
bit-bit_or a b (suc k) =
    ap (λ n. bit n k) (ground (arith, bit_or-halves a b)) ∙ bit-bit_or (a / 2) (b / 2) k

pub bit-zero : (k : ℕ) → bit 0 k ≡ false
bit-zero zero = refl
bit-zero (suc k) = bit-zero k

-- A power of two has one digit.
pub bit-pow : (i k : ℕ) → bit (2 ^ i) k ≡ nat_beq i k
bit-pow zero zero = refl
bit-pow zero (suc k) = bit-zero k ∙ ground arith
bit-pow (suc i) zero = ground (arith, pow-suc 2 i)
bit-pow (suc i) (suc k) =
    ap (λ n. bit n k) (ground (arith, pow-suc 2 i)) ∙ bit-pow i k ∙ ground arith
