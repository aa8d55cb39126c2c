-- ===== src/Pmm.antt =====
-- src/kernel/pmm.c: the physical memory manager, one bit of `bitmap` for each block of 4096 bytes.
-- The E820 entries that the boot loader leaves at 0x5000 are an argument.
pub mod Bitmap
pub mod Alloc
pub mod Init
mod Tests
use os_eojin.Base.{
  ℕ, zero, suc, ◌+◌, ◌-◌, ◌*◌, ◌/◌, ◌%◌, ◌^◌, min, bit_and, bit_or, Bool, true, false, not, Option,
  none, some, List, [], ◌∷◌, ltb, ◌==◌, if◌then◌else◌, codes,
}
use os_eojin.Utils.{hex_to_ascii}
use os_eojin.Machine.{Machine, kprint, u64}

abbrev pub block_size : ℕ
block_size = 4096

-- `memory_map_entry_t`
pub record Entry : Type 0 where
  pub base_addr : ℕ
  pub length : ℕ
  pub type : ℕ

abbrev pub Bitmap : Type 0
Bitmap = ℕ → ℕ

abbrev pub put_word : Bitmap → ℕ → ℕ → Bitmap
put_word bitmap k w i = if k == i then w else bitmap i

-- SET_BIT: `bitmap[idx/32] |= (1 << (idx%32))`
unfoldable pub set_bit : Bitmap → ℕ → Bitmap
set_bit bitmap idx = put_word bitmap (idx / 32) (bit_or (bitmap (idx / 32)) (2 ^ (idx % 32)))

-- CLEAR_BIT: `bitmap[idx/32] &= ~(1 << (idx%32))`
pub clear_bit : Bitmap → ℕ → Bitmap
clear_bit bitmap idx =
    put_word bitmap (idx / 32) (bit_and (bitmap (idx / 32)) (2 ^ 32 - 1 - 2 ^ (idx % 32)))

-- TEST_BIT: `bitmap[idx/32] & (1 << (idx%32))`, as a truth value
unfoldable pub test_bit : Bitmap → ℕ → Bool
test_bit bitmap idx = not (bit_and (bitmap (idx / 32)) (2 ^ (idx % 32)) == 0)

-- The first loop of `init_pmm`: the end of the highest usable entry.
unfoldable pub highest_end : List Entry → ℕ → ℕ
highest_end [] max_addr = max_addr
highest_end (e ∷ entries) max_addr = highest_end entries (
    if e.type == 1
    then (let end = u64 (e.base_addr + e.length) in if ltb max_addr end then end else max_addr)
    else max_addr)

-- `memset(bitmap, 0xff, count)` seen through little-endian words: of word `i` it writes the bytes
-- below `count`, at most 4.
pub fill_words : ℕ → Bitmap → Bitmap
fill_words count bitmap i =
    let written = 2 ^ (8 * min 4 (count - 4 * i)) in bitmap i / written * written + (written - 1)

-- `for (j = 0; j < n; j++) CLEAR_BIT(i + j);`
pub clear_range : ℕ → ℕ → Bitmap → Bitmap
clear_range zero i bitmap = bitmap
clear_range (suc n) i bitmap = clear_range n (i + 1) (clear_bit bitmap i)

-- `for (i = …; n rounds; i++) SET_BIT(i);`
pub set_range : ℕ → ℕ → Bitmap → Bitmap
set_range zero i bitmap = bitmap
set_range (suc n) i bitmap = set_range n (i + 1) (set_bit bitmap i)

-- The loop that frees the usable entries.
pub free_usable : List Entry → Bitmap → Bitmap
free_usable [] bitmap = bitmap
free_usable (e ∷ entries) bitmap = free_usable entries (
    if e.type == 1
    then clear_range (e.length / block_size) (e.base_addr / block_size) bitmap
    else bitmap)

abbrev pub reserved_blocks : ℕ
reserved_blocks = 0x2000000 / block_size

unfoldable pub init_pmm : List Entry → Machine → Machine
init_pmm entries m =
    let max_addr = highest_end entries 0 in
    let total = max_addr / block_size in
    let size = total / 8 in
    kprint (codes "\n") (
      kprint (hex_to_ascii max_addr) (
        kprint (codes "PMM Initialized. Total Memory: ") (record m {
          total_blocks = total;
          bitmap_size = size;
          bitmap = set_range reserved_blocks 0 (free_usable entries (fill_words size m.bitmap));
        })))

-- The search of `pmm_alloc_block` from block `i` on, `n` blocks left.
pub find_free : ℕ → ℕ → Bitmap → Option ℕ
find_free zero i bitmap = none
find_free (suc n) i bitmap =
    let rest = find_free n (i + 1) bitmap in if not (test_bit bitmap i) then some i else rest

-- What `pmm_alloc_block` does with the outcome of its search.
pub take_block : Option ℕ → Machine → ℕ × Machine
take_block (some i) m = (i * block_size, record m { bitmap = set_bit m.bitmap i })
take_block none m = (
  0,
  kprint (codes "\n")
      (kprint (hex_to_ascii m.total_blocks) (kprint (codes "PMM Alloc Failed. Total: ") m)),
)

unfoldable pub pmm_alloc_block : Machine → ℕ × Machine
unfolding find_free take_block
pmm_alloc_block m = take_block (find_free m.total_blocks 0 m.bitmap) m

pub pmm_free_block : ℕ → Machine → Machine
pmm_free_block p m = record m { bitmap = clear_bit m.bitmap (p / block_size) }
