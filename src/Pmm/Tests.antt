-- ===== src/Pmm/Tests.antt =====
-- The theorems about src/kernel/pmm.c at small machines.
use os_eojin.Base.{
  ℕ, ◌-◌, ◌*◌, ◌^◌, ◌<◌, ◌≡◌, ◌≢◌, ◌↔◌, refl, true, List, [], ◌∷◌, arith, if◌then◌else◌, ltb,
}
use os_eojin.Base.Bits.{all_below, all_below_sound}
use os_eojin.Machine.{Machine}
use os_eojin.Pmm.{Entry, init_pmm, pmm_alloc_block, test_bit, set_bit}
use os_eojin.Pmm.Alloc.{used, IsReserved, Block, pmm_alloc_block_outcome}
use os_eojin.Pmm.Init.{usable, usable-lt-total_blocks, init_pmm-IsReserved}

-- 32MB and three blocks more, the first of which is used.
abbrev small : Machine
small = record {
  mem = λ a. 0;
  bitmap = λ i. if ltb i 256 then 2 ^ 32 - 1 else 1;
  total_blocks = 8195;
  bitmap_size = 1024;
  console = [];
}

small_table : all_below 8192 (used small) ≡ true
unfolding used test_bit
small_table = refl

small-IsReserved : IsReserved small
small-IsReserved j h = all_below_sound 8192 (used small) j small_table h

abbrev map : List Entry
map =
    record { base_addr = 0; length = 0x9fc00; type = 1 }
    ∷ record { base_addr = 0xf0000; length = 0x10000; type = 2 }
    ∷ record { base_addr = 0x100000; length = 0x7ee0000; type = 1 }
    ∷ []

-- The first block is used, so the second is returned, and then the third.
alloc_first : (pmm_alloc_block small).0 ≡ 8193 * 4096
unfolding pmm_alloc_block test_bit
alloc_first = refl

alloc_second : (pmm_alloc_block (pmm_alloc_block small).1).0 ≡ 8194 * 4096
unfolding pmm_alloc_block test_bit set_bit
alloc_second = refl

pmm_alloc_block_outcome_example :
    (((pmm_alloc_block small).0 ≡ 0) ↔ ((j : ℕ) → j < 8195 → used small j ≡ true))
    × ((pmm_alloc_block small).0 ≢ 0
        → Block small (pmm_alloc_block small).0 (pmm_alloc_block small).1)
    × IsReserved (pmm_alloc_block small).1
pmm_alloc_block_outcome_example = pmm_alloc_block_outcome small small-IsReserved

usable-lt-total_blocks_example : 9000 < (init_pmm map small).total_blocks
unfolding usable
usable-lt-total_blocks_example = usable-lt-total_blocks map small 9000 (omega arith) refl

init_pmm-IsReserved_example : IsReserved (init_pmm map small)
init_pmm-IsReserved_example = init_pmm-IsReserved map small
