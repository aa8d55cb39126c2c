-- ===== src/Pmm/Alloc.antt =====
-- What `pmm_alloc_block` and `pmm_free_block` of src/kernel/pmm.c do to the set of used blocks.
use os_eojin.Base.{
  ℕ, zero, suc, ◌+◌, ◌*◌, ◌/◌, ◌≤◌, ◌<◌, ◌≡◌, ◌≢◌, ◌↔◌, Bool, true, false, ◌==◌, if◌then◌else◌,
  arith, inl, inr, none, some, ◌⊎◌, Option-cases, Bool-cases,
}
use os_eojin.Machine.{Machine}
use os_eojin.Pmm.{
  Bitmap, test_bit, find_free, pmm_alloc_block, pmm_free_block, block_size, reserved_blocks,
}
use os_eojin.Pmm.Bitmap.{test_bit-set_bit, test_bit-clear_bit}

-- Block `i` is marked as used.
unfoldable pub used : Machine → ℕ → Bool
used m i = test_bit m.bitmap i

-- The lowest free block from `i` on, below `i + n`.
record IsFirst (bitmap : Bitmap) (i n k : ℕ) : Type 0 where
  from : i ≤ k
  below : k < i + n
  free : test_bit bitmap k ≡ false
  lowest : (j : ℕ) → i ≤ j → j < k → test_bit bitmap j ≡ true

find_free-some :
    (n i k : ℕ) (bitmap : Bitmap) → find_free n i bitmap ≡ some k → IsFirst bitmap i n k
unfolding find_free
find_free-some zero i k bitmap e = ground arith
find_free-some (suc n) i k bitmap e = elim (Bool-cases (test_bit bitmap i)) [
  | inl busy ↦
      let later : find_free n (i + 1) bitmap ≡ some k = ground arith in
      let first = find_free-some n (i + 1) k bitmap later in
      record {
        from = omega (arith, first.from);
        below = omega (arith, first.below);
        free = first.free;
        lowest = λ j p q. ground (arith, first.lowest j);
      }
  | inr free ↦
      let here : i ≡ k = ground arith in
      record {
        from = omega arith;
        below = omega arith;
        free = rw (← here) free;
        lowest = λ j p q. absurd (omega arith);
      }
]

find_free-none :
    (n i j : ℕ) (bitmap : Bitmap)
    → find_free n i bitmap ≡ none
    → i ≤ j
    → j < i + n
    → test_bit bitmap j ≡ true
unfolding find_free
find_free-none zero i j bitmap e p q = absurd (omega arith)
find_free-none (suc n) i j bitmap e p q = ground (arith, find_free-none n (i + 1) j bitmap)

-- Block `i` was the lowest free block of `m`; in `m'` it is used, and every other block is as before.
pub record Allocated (m : Machine) (i : ℕ) (m' : Machine) : Type 0 where
  pub below : i < m.total_blocks
  pub was_free : used m i ≡ false
  pub lowest : (j : ℕ) → j < i → used m j ≡ true
  pub marks : (j : ℕ) → used m' j ≡ (if i == j then true else used m j)

-- `pmm_alloc_block` either takes the lowest free block and returns its address, or returns 0, when
-- every block is used, and leaves the bitmap.
pub pmm_alloc_block_lem :
    (m : Machine)
    → ((i : ℕ) × ((pmm_alloc_block m).0 ≡ i * block_size) × Allocated m i (pmm_alloc_block m).1)
      ⊎ (((pmm_alloc_block m).0 ≡ 0)
          × ((pmm_alloc_block m).1.bitmap ≡ m.bitmap)
          × ((j : ℕ) → j < m.total_blocks → used m j ≡ true))
unfolding pmm_alloc_block used
pmm_alloc_block_lem m = elim (Option-cases (find_free m.total_blocks 0 m.bitmap)) [
  | inl e ↦
      inr (
        rw e,
        rw e,
        λ j h. find_free-none m.total_blocks 0 j m.bitmap e (omega arith) (omega arith),
      )
  | inr (i, e) ↦
      let first = find_free-some m.total_blocks 0 i m.bitmap e in
      inl (
        i,
        rw e,
        record {
          below = omega (arith, first.below);
          was_free = first.free;
          lowest = λ j h. first.lowest j (omega arith) h;
          marks = rw e (test_bit-set_bit m.bitmap i);
        },
      )
]

-- It changes neither memory nor the size of the bitmap.
pub pmm_alloc_block_frame :
    (m : Machine)
    → ((pmm_alloc_block m).1.mem ≡ m.mem) × ((pmm_alloc_block m).1.total_blocks ≡ m.total_blocks)
unfolding pmm_alloc_block
pmm_alloc_block_frame m = elim (Option-cases (find_free m.total_blocks 0 m.bitmap)) [
  | inl e ↦ (rw e, rw e)
  | inr (i, e) ↦ (rw e, rw e)
]

pub used-pmm_free_block :
    (p : ℕ) (m : Machine) (j : ℕ)
    → used (pmm_free_block p m) j ≡ (if p / block_size == j then false else used m j)
unfolding used pmm_free_block
used-pmm_free_block p m j = test_bit-clear_bit m.bitmap (p / block_size) j

-- The first 32MB are marked as used.
abbrev pub IsReserved : Machine → Type 0
IsReserved m = (j : ℕ) → j < reserved_blocks → used m j ≡ true

-- What an allocation that did not fail returns, above the reserved part: a nonzero address of a
-- whole block that was free and is used now, and no other block changes.
pub record Block (m : Machine) (p : ℕ) (m' : Machine) : Type 0 where
  pub index : ℕ
  pub address : p ≡ index * block_size
  pub high : 0x2000000 ≤ p
  pub taken : Allocated m index m'

module _ (m : Machine) (reserved : IsReserved m) where
  Allocated-high : (i : ℕ) {m' : Machine} → Allocated m i m' → reserved_blocks ≤ i
  Allocated-high i a = ground (arith, reserved i, a.was_free)

  pub pmm_alloc_block-Block :
      (pmm_alloc_block m).0 ≢ 0 → Block m (pmm_alloc_block m).0 (pmm_alloc_block m).1
  pmm_alloc_block-Block ne = elim (pmm_alloc_block_lem m) [
    | inl (i, e, a) ↦ record {
      index = i;
      address = e;
      high = omega (arith, e, Allocated-high i a);
      taken = a;
    }
    | inr (e, same, full) ↦ absurd (ne e)
  ]

  pub pmm_alloc_block-IsReserved : IsReserved (pmm_alloc_block m).1
  unfolding used
  pmm_alloc_block-IsReserved j h = elim (pmm_alloc_block_lem m) [
    | inl (i, e, a) ↦ ground (arith, a.marks j, reserved j)
    | inr (e, same, full) ↦ rw same (reserved j h)
  ]

-- While the first 32MB stay reserved, `pmm_alloc_block` returns 0 exactly when every block is used;
-- otherwise it returns the lowest free block, above 32MB. Either way the first 32MB stay reserved.
pub pmm_alloc_block_outcome :
    (m : Machine)
    → IsReserved m
    → (((pmm_alloc_block m).0 ≡ 0) ↔ ((j : ℕ) → j < m.total_blocks → used m j ≡ true))
      × ((pmm_alloc_block m).0 ≢ 0 → Block m (pmm_alloc_block m).0 (pmm_alloc_block m).1)
      × IsReserved (pmm_alloc_block m).1
pmm_alloc_block_outcome m reserved = elim (pmm_alloc_block_lem m) [
  | inl (i, e, a) ↦ (
    (
      λ z. absurd (omega (arith, e, Allocated-high m reserved i a)),
      λ full. absurd (ground (arith, full i, a.below, a.was_free)),
    ),
    pmm_alloc_block-Block m reserved,
    pmm_alloc_block-IsReserved m reserved,
  )
  | inr (e, same, full) ↦
      ((λ _. full, λ _. e), pmm_alloc_block-Block m reserved, pmm_alloc_block-IsReserved m reserved)
]

-- A block given back right after its allocation leaves the bitmap as it was before.
pub pmm_free_block-pmm_alloc_block :
    (m : Machine) (j : ℕ)
    → IsReserved m
    → (pmm_alloc_block m).0 ≢ 0
    → used (pmm_free_block (pmm_alloc_block m).0 (pmm_alloc_block m).1) j ≡ used m j
pmm_free_block-pmm_alloc_block m j reserved h =
    let b = pmm_alloc_block-Block m reserved h in
    ground (
      arith,
      used-pmm_free_block (pmm_alloc_block m).0 (pmm_alloc_block m).1 j,
      b.address,
      b.taken.marks j,
      b.taken.was_free,
    )

-- Two allocations in a row that both succeed return different blocks.
pub pmm_alloc_block_twice :
    (m : Machine)
    → IsReserved m
    → (pmm_alloc_block m).0 ≢ 0
    → (pmm_alloc_block (pmm_alloc_block m).1).0 ≢ 0
    → (pmm_alloc_block m).0 + block_size ≤ (pmm_alloc_block (pmm_alloc_block m).1).0
pmm_alloc_block_twice m reserved h k =
    let b = pmm_alloc_block-Block m reserved h in
    let c = pmm_alloc_block-Block (pmm_alloc_block m).1 (pmm_alloc_block-IsReserved m reserved) k in
    let free = c.taken.was_free in
    let after : b.index < c.index = ground (arith, b.taken.marks c.index, b.taken.lowest c.index) in
    omega (arith, b.address, c.address)
