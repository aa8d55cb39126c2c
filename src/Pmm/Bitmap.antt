-- ===== src/Pmm/Bitmap.antt =====
-- The bit macros of src/kernel/pmm.c: setting or clearing one bit changes that bit alone.
use os_eojin.Base.{
  ℕ, zero, suc, ◌+◌, ◌-◌, ◌/◌, ◌%◌, ◌^◌, ◌<◌, ◌≡◌, Bool, true, false, ◌&&◌, ◌==◌, if◌then◌else◌,
  arith, ltb, leb,
}
use os_eojin.Base.Bits.{
  bit, bit-bit_or, bit-bit_and, bit-two_pow, bit-complement, bit_and-two_pow, two_pow_pos,
  bit-lt_two,
}
use os_eojin.Pmm.{Bitmap, set_bit, clear_bit, test_bit, set_range, clear_range}

-- Bit `idx` of the bitmap.
abbrev pub cell : Bitmap → ℕ → ℕ
cell bitmap idx = bit (bitmap (idx / 32)) (idx % 32)

pub test_bit-cell : (bitmap : Bitmap) (i : ℕ) → test_bit bitmap i ≡ (cell bitmap i == 1)
unfolding test_bit
test_bit-cell bitmap i = ground (
  arith,
  bit_and-two_pow (i % 32) (bitmap (i / 32)),
  two_pow_pos (i % 32),
  bit-lt_two (i % 32) (bitmap (i / 32)),
)

cell_lt : (bitmap : Bitmap) (i : ℕ) → cell bitmap i < 2
cell_lt bitmap i = bit-lt_two (i % 32) (bitmap (i / 32))

-- Two indices in one word at one bit are one index.
index_eq : (i j : ℕ) → i / 32 ≡ j / 32 → i % 32 ≡ j % 32 → i ≡ j
index_eq i j p q = omega arith

cell-set_bit :
    (bitmap : Bitmap) (i j : ℕ) → cell (set_bit bitmap i) j ≡ (if i == j then 1 else cell bitmap j)
unfolding set_bit
cell-set_bit bitmap i j = ground (
  arith,
  bit-bit_or (j % 32) (bitmap (i / 32)) (2 ^ (i % 32)),
  bit-two_pow (i % 32) (j % 32),
  cell_lt bitmap j,
)

cell-clear_bit :
    (bitmap : Bitmap) (i j : ℕ)
    → cell (clear_bit bitmap i) j ≡ (if i == j then 0 else cell bitmap j)
unfolding clear_bit
cell-clear_bit bitmap i j = ground (
  arith,
  bit-bit_and (j % 32) (bitmap (i / 32)) (2 ^ 32 - 1 - 2 ^ (i % 32)),
  bit-complement (i % 32) (j % 32) (omega arith) (omega arith),
  cell_lt bitmap j,
)

-- SET_BIT sets its bit and leaves every other.
pub test_bit-set_bit :
    (bitmap : Bitmap) (i j : ℕ)
    → test_bit (set_bit bitmap i) j ≡ (if i == j then true else test_bit bitmap j)
test_bit-set_bit bitmap i j =
    ground
      (arith, test_bit-cell bitmap j, test_bit-cell (set_bit bitmap i) j, cell-set_bit bitmap i j)

-- CLEAR_BIT clears its bit and leaves every other.
pub test_bit-clear_bit :
    (bitmap : Bitmap) (i j : ℕ)
    → test_bit (clear_bit bitmap i) j ≡ (if i == j then false else test_bit bitmap j)
test_bit-clear_bit bitmap i j =
    ground (
      arith,
      test_bit-cell bitmap j,
      test_bit-cell (clear_bit bitmap i) j,
      cell-clear_bit bitmap i j,
    )

abbrev pub within : ℕ → ℕ → ℕ → Bool
within n i j = leb i j && ltb j (i + n)

-- The loops over SET_BIT and CLEAR_BIT cover exactly their range.
pub test_bit-set_range :
    (n i j : ℕ) (bitmap : Bitmap)
    → test_bit (set_range n i bitmap) j ≡ (if within n i j then true else test_bit bitmap j)
unfolding set_range
test_bit-set_range zero i j bitmap = ground arith
test_bit-set_range (suc n) i j bitmap =
    ground (arith, test_bit-set_range n (i + 1) j (set_bit bitmap i), test_bit-set_bit bitmap i j)

pub test_bit-clear_range :
    (n i j : ℕ) (bitmap : Bitmap)
    → test_bit (clear_range n i bitmap) j ≡ (if within n i j then false else test_bit bitmap j)
unfolding clear_range
test_bit-clear_range zero i j bitmap = ground arith
test_bit-clear_range (suc n) i j bitmap =
    ground
      (arith, test_bit-clear_range n (i + 1) j (clear_bit bitmap i), test_bit-clear_bit bitmap i j)
