-- ===== src/Base/Bits.antt =====
-- Single bits of a number, and the native `bit_and` and `bit_or` read bit by bit.
use Prim.Native.Nat.{
  ℕ, zero, suc, ◌+◌, ◌*◌, ◌/◌, ◌%◌, ◌^◌, ◌-◌, ◌≤◌, ◌<◌, min, max, digits, bitwise, bit_and, bit_or,
  bit_and-bitwise, bit_or-bitwise,
}
use native.Mathlib.Nat.{le_refl, pow-suc, one-le-pow}
use native.Mathlib.Omega.{arith}
use mathlib.Core.Path.{◌≡◌, refl, ap}
use mathlib.Core.Bool.{Bool, true, ◌&&◌}
use os_eojin.Base.Tests.{◌==◌, ==_iff, if◌then◌else◌}

-- Bit `k` of `w`, as 0 or 1.
abbrev pub bit : ℕ → ℕ → ℕ
bit w zero = w % 2
bit w (suc k) = bit (w / 2) k

module _ (z : ℕ → ℕ) (f : ℕ → ℕ → ℕ) where
  -- The digit recursion does not depend on its fuel.
  digits_enough : (n m a b : ℕ) → a ≤ n → a ≤ m → digits z f n a b ≡ digits z f m a b
  digits_enough zero zero a b p q = refl
  digits_enough zero (suc m) zero b p q = refl
  digits_enough zero (suc m) (suc a) b p q = absurd (omega arith)
  digits_enough (suc n) zero zero b p q = refl
  digits_enough (suc n) zero (suc a) b p q = absurd (omega arith)
  digits_enough (suc n) (suc m) zero b p q = refl
  digits_enough (suc n) (suc m) (suc a) b p q =
      rw (digits_enough n m (suc a / 2) (b / 2) (omega arith) (omega arith))

  low_digit :
      (a b : ℕ)
      → bitwise z f (suc a) b ≡ bitwise z f (suc a / 2) (b / 2) * 2 + f (suc a % 2) (b % 2)
  low_digit a b =
      omega (arith, digits_enough a (suc a / 2) (suc a / 2) (b / 2) (omega arith) (le_refl _))

pub bit_or_halves : (a b : ℕ) → bit_or a b ≡ bit_or (a / 2) (b / 2) * 2 + max (a % 2) (b % 2)
bit_or_halves zero b = simp bit_or-bitwise (omega arith)
bit_or_halves (suc a) b = simp bit_or-bitwise (low_digit (λ y. y) max a b)

pub bit_and_halves : (a b : ℕ) → bit_and a b ≡ bit_and (a / 2) (b / 2) * 2 + min (a % 2) (b % 2)
bit_and_halves zero b = simp bit_and-bitwise (omega arith)
bit_and_halves (suc a) b = simp bit_and-bitwise (low_digit (λ y. 0) min a b)

half-bit_or : (a b : ℕ) → bit_or a b / 2 ≡ bit_or (a / 2) (b / 2)
half-bit_or a b = omega (arith, bit_or_halves a b)

half-bit_and : (a b : ℕ) → bit_and a b / 2 ≡ bit_and (a / 2) (b / 2)
half-bit_and a b = omega (arith, bit_and_halves a b)

pub bit-bit_or : (k a b : ℕ) → bit (bit_or a b) k ≡ max (bit a k) (bit b k)
bit-bit_or zero a b = omega (arith, bit_or_halves a b)
bit-bit_or (suc k) a b = rw (half-bit_or a b) (bit-bit_or k (a / 2) (b / 2))

pub bit-bit_and : (k a b : ℕ) → bit (bit_and a b) k ≡ min (bit a k) (bit b k)
bit-bit_and zero a b = omega (arith, bit_and_halves a b)
bit-bit_and (suc k) a b = rw (half-bit_and a b) (bit-bit_and k (a / 2) (b / 2))

pub half-two_pow : (k : ℕ) → 2 ^ suc k / 2 ≡ 2 ^ k
half-two_pow k = omega (arith, pow-suc 2 k)

bit_and-zero_right : (k a : ℕ) → a ≤ k → bit_and a 0 ≡ 0
bit_and-zero_right k zero h = refl
bit_and-zero_right zero (suc a) h = absurd (omega arith)
bit_and-zero_right (suc k) (suc a) h =
    omega (arith, bit_and_halves (suc a) 0, bit_and-zero_right k (suc a / 2) (omega arith))

pub bit_and-zero : (a : ℕ) → bit_and a 0 ≡ 0
bit_and-zero a = bit_and-zero_right a a (le_refl a)

pub bit-lt_two : (k w : ℕ) → bit w k < 2
bit-lt_two zero w = omega arith
bit-lt_two (suc k) w = bit-lt_two k (w / 2)

-- Masking with one bit.
pub bit_and-two_pow : (k a : ℕ) → bit_and a (2 ^ k) ≡ bit a k * 2 ^ k
bit_and-two_pow zero a = omega (arith, bit_and_halves a 1, bit_and-zero (a / 2))
bit_and-two_pow (suc k) a =
    rw (bit_and_halves a (2 ^ suc k), half-two_pow k, bit_and-two_pow k (a / 2))
      (omega (arith, pow-suc 2 k, ap (λ (t : ℕ). bit (a / 2) k * t) (pow-suc 2 k)))

pub two_pow_pos : (k : ℕ) → 0 < 2 ^ k
two_pow_pos k = one-le-pow k 2 (omega arith)

bit-zero : (j : ℕ) → bit 0 j ≡ 0
bit-zero zero = refl
bit-zero (suc j) = bit-zero j

-- A power of two has one bit.
pub bit-two_pow : (k j : ℕ) → bit (2 ^ k) j ≡ (if k == j then 1 else 0)
bit-two_pow zero zero = refl
bit-two_pow zero (suc j) = ground (arith, bit-zero j)
bit-two_pow (suc k) zero = ground (arith, pow-suc 2 k)
bit-two_pow (suc k) (suc j) = rw (half-two_pow k) (ground (arith, bit-two_pow k j))

-- Over a small range, check every value by evaluation.
abbrev pub all_below : ℕ → (ℕ → Bool) → Bool
all_below zero p = true
all_below (suc n) p = p n && all_below n p

pub all_below_sound : (n : ℕ) (p : ℕ → Bool) (x : ℕ) → all_below n p ≡ true → x < n → p x ≡ true
all_below_sound zero p x h lt = absurd (omega arith)
all_below_sound (suc n) p x h lt = ground (arith, all_below_sound n p x)

-- The 32-bit complement of one bit has every other bit below 32.
complement_table :
    all_below 32 (λ k. all_below 32 (λ j. bit (2 ^ 32 - 1 - 2 ^ k) j == (if k == j then 0 else 1)))
    ≡ true
complement_table = refl

pub bit-complement :
    (k j : ℕ) → k < 32 → j < 32 → bit (2 ^ 32 - 1 - 2 ^ k) j ≡ (if k == j then 0 else 1)
bit-complement k j hk hj = (==_iff _ _).0 (
    all_below_sound 32 (λ j. bit (2 ^ 32 - 1 - 2 ^ k) j == (if k == j then 0 else 1)) j
      (all_below_sound 32
        (λ k. all_below 32 (λ j. bit (2 ^ 32 - 1 - 2 ^ k) j == (if k == j then 0 else 1))) k
        complement_table hk)
      hj)
