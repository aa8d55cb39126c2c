-- ===== src/Pmm/Init.antt =====
-- The bitmap that `init_pmm` of src/kernel/pmm.c leaves.
use os_eojin.Base.{
  ℕ, zero, suc, ◌+◌, ◌-◌, ◌*◌, ◌/◌, ◌%◌, ◌^◌, ◌≤◌, ◌<◌, ◌≡◌, refl, Bool, true, false, ◌==◌, ltb,
  ◌&&◌, ◌||◌, if◌then◌else◌, arith, List, [], ◌∷◌, min, ap, All, Bool-cases, inl, inr,
}
use os_eojin.Base.Bits.{bit}
use os_eojin.Machine.{Machine, u64}
use os_eojin.Pmm.{
  Entry, Bitmap, test_bit, fill_words, clear_range, free_usable, highest_end, init_pmm, block_size,
  reserved_blocks,
}
use os_eojin.Pmm.Bitmap.{test_bit-cell, within, test_bit-set_range, test_bit-clear_range}
use os_eojin.Pmm.Alloc.{used, IsReserved}
use native.Mathlib.Nat.{pow-suc, one-le-pow, div-div-eq-div-mul, mul_comm}

-- With ones below `n` bits, halving leaves ones below `n - 1` bits.
halve_ones :
    (n w : ℕ)
    → (w / 2 ^ suc n * 2 ^ suc n + (2 ^ suc n - 1)) / 2 ≡ w / 2 / 2 ^ n * 2 ^ n + (2 ^ n - 1)
halve_ones n w =
    rw (pow-suc 2 n, mul_comm (2 ^ n) 2, ← div-div-eq-div-mul w 2 (2 ^ n))
      (omega (arith, one-le-pow n 2 (omega arith)))

odd_ones : (n w : ℕ) → (w / 2 ^ suc n * 2 ^ suc n + (2 ^ suc n - 1)) % 2 ≡ 1
odd_ones n w = rw (pow-suc 2 n) (omega (arith, one-le-pow n 2 (omega arith)))

-- Ones in the low `n` bits, the others kept.
bit-ones : (n w k : ℕ) → bit (w / 2 ^ n * 2 ^ n + (2 ^ n - 1)) k ≡ (if ltb k n then 1 else bit w k)
bit-ones zero w k =
    let e : w / 2 ^ 0 * 2 ^ 0 + (2 ^ 0 - 1) ≡ w = omega arith in ground (arith, ap (λ x. bit x k) e)
bit-ones (suc n) w zero = ground (arith, odd_ones n w)
bit-ones (suc n) w (suc k) =
    ground (arith, ap (λ x. bit x k) (halve_ones n w), bit-ones n (w / 2) k)

-- `memset` to 0xff marks the blocks of its whole bytes.
test_bit-fill_words :
    (count j : ℕ) (bitmap : Bitmap)
    → test_bit (fill_words count bitmap) j ≡ (if ltb j (8 * count) then true else test_bit bitmap j)
unfolding fill_words
test_bit-fill_words count j bitmap = ground (
  arith,
  test_bit-cell (fill_words count bitmap) j,
  test_bit-cell bitmap j,
  bit-ones (8 * min 4 (count - 4 * (j / 32))) (bitmap (j / 32)) (j % 32),
)

-- Block `j` lies in one of the usable entries, by whole blocks from the one its start is in.
unfoldable pub usable : List Entry → ℕ → Bool
usable [] j = false
usable (e ∷ entries) j =
    (e.type == 1 && within (e.length / block_size) (e.base_addr / block_size) j) || usable entries j

test_bit-free_usable :
    (entries : List Entry) (j : ℕ) (bitmap : Bitmap)
    → test_bit (free_usable entries bitmap) j
      ≡ (if usable entries j then false else test_bit bitmap j)
unfolding free_usable usable
test_bit-free_usable [] j bitmap = refl
test_bit-free_usable (e ∷ entries) j bitmap = ground (
  arith,
  test_bit-free_usable entries j bitmap,
  test_bit-free_usable entries j
      (clear_range (e.length / block_size) (e.base_addr / block_size) bitmap),
  test_bit-clear_range (e.length / block_size) (e.base_addr / block_size) j bitmap,
)

pub used-init_pmm :
    (entries : List Entry) (m : Machine) (j : ℕ)
    → used (init_pmm entries m) j ≡ (
        if ltb j reserved_blocks
        then true
        else if usable entries j
        then false
        else if ltb j (8 * (init_pmm entries m).bitmap_size)
        then true
        else used m j)
unfolding used init_pmm
used-init_pmm entries m j =
    let size = (init_pmm entries m).bitmap_size in
    let words = fill_words size m.bitmap in
    ground (
      arith,
      test_bit-set_range reserved_blocks 0 j (free_usable entries words),
      test_bit-free_usable entries j words,
      test_bit-fill_words size j m.bitmap,
    )

-- The first 32MB are reserved from then on.
pub init_pmm-IsReserved : (entries : List Entry) (m : Machine) → IsReserved (init_pmm entries m)
init_pmm-IsReserved entries m j h = ground (arith, used-init_pmm entries m j)

highest_end-ge : (entries : List Entry) (n : ℕ) → n ≤ highest_end entries n
unfolding highest_end
highest_end-ge [] n = omega arith
highest_end-ge (e ∷ entries) n =
    ground (arith, highest_end-ge entries n, highest_end-ge entries (u64 (e.base_addr + e.length)))

-- The end of an entry does not wrap round 2^64.
abbrev pub Fits : Entry → Type 0
Fits e = e.base_addr + e.length < 2 ^ 64

usable-lt-end :
    (entries : List Entry) (j n : ℕ)
    → All Fits entries
    → usable entries j ≡ true
    → (j + 1) * block_size ≤ highest_end entries n
unfolding usable highest_end
usable-lt-end [] j n fits h = ground arith
usable-lt-end (e ∷ entries) j n fits h = elim (Bool-cases (usable entries j)) [
  | inl later ↦ usable-lt-end entries j _ fits.1 later
  | inr here ↦ ground (
    arith,
    fits.0,
    highest_end-ge entries (u64 (e.base_addr + e.length)),
    highest_end-ge entries n,
  )
]

-- Where no entry wraps, every block that a usable entry frees lies below `total_blocks`, so that
-- `pmm_alloc_block` can reach it and the bitmap has a bit for it.
pub usable-lt-total_blocks :
    (entries : List Entry) (m : Machine) (j : ℕ)
    → All Fits entries
    → usable entries j ≡ true
    → j < (init_pmm entries m).total_blocks
unfolding init_pmm
usable-lt-total_blocks entries m j fits h = omega (arith, usable-lt-end entries j 0 fits h)
