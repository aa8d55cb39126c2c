-- ===== src/Vmm.antt =====
-- src/kernel/vmm.c: the page tables, as 64-bit words in memory. `invlpg` and the load of CR3 act on the
-- processor alone.
pub mod Word
pub mod Tree
pub mod Down
pub mod Descend
pub mod SetPage
pub mod Map
pub mod Root
pub mod Init
pub mod User
pub mod Aside
pub mod Shared
pub mod Sample
mod Tests
use os_eojin.Base.{
  ℕ, zero, suc, ◌+◌, ◌*◌, ◌/◌, ◌%◌, ◌^◌, bit_or, Bool, true, false, Option, none, some, ◌==◌,
  if◌then◌else◌, codes,
}
use os_eojin.Machine.{Machine, kprint, memset, read64, write64}
use os_eojin.Pmm.{pmm_alloc_block}

abbrev pub page_size : ℕ
page_size = 4096

-- `PAGING_FLAG_PRESENT | PAGING_FLAG_WRITABLE | PAGING_FLAG_USER`
abbrev pub user_flags : ℕ
user_flags = 7

-- PML4_INDEX, PDPT_INDEX, PD_INDEX and PT_INDEX, at level 3, 2, 1 and 0.
abbrev pub index : ℕ → ℕ → ℕ
index level vaddr = vaddr / 2 ^ (12 + 9 * level) % 512

-- `entry & PAGING_FLAG_PRESENT`
abbrev pub present : ℕ → Bool
present entry = entry % 2 == 1

-- `entry & 0xFFFFFFFFFF000`: bits 12 to 51.
abbrev pub page_of : ℕ → ℕ
page_of entry = entry / 4096 % 2 ^ 40 * 4096

-- `&table->entries[i]`
abbrev pub entry_at : ℕ → ℕ → ℕ
entry_at table i = table + 8 * i

-- One of the first three steps of `vmm_map_page`: the table that entry `i` names, made if there is none.
-- `none` is its `return` without a block.
unfoldable pub descend : (table i : ℕ) → Machine → Option ℕ × Machine
descend table i m =
    let entry = read64 (entry_at table i) m.mem in
    let (page, m1) = pmm_alloc_block m in
    let made : Machine = record m1 {
      mem = write64 (entry_at table i) (bit_or page user_flags) (memset page 0 page_size m1.mem);
    } in
    if present entry
    then (some (page_of entry), m)
    else if page == 0
    then (none, m1)
    else (some (page_of (read64 (entry_at table i) made.mem)), made)

-- The next step at the table that was found.
abbrev pub at_table : (ℕ → Machine → Bool × Machine) → Option ℕ × Machine → Bool × Machine
at_table next (none, m) = (false, m)
at_table next (some table, m) = next table m

-- The fourth step: the entry of the page itself.
abbrev pub set_page : (vaddr paddr flags pt : ℕ) → Machine → Bool × Machine
set_page vaddr paddr flags pt m = (
  true,
  record m { mem = write64 (entry_at pt (index 0 vaddr)) (bit_or (page_of paddr) flags) m.mem },
)

-- `vmm_map_page`, with whether it came to its end: the C function returns nothing either way.
unfoldable pub map_page : (pml4 vaddr paddr flags : ℕ) → Machine → Bool × Machine
map_page pml4 vaddr paddr flags m =
    at_table
      (λ pdpt m1.
        at_table (λ pd m2. at_table (set_page vaddr paddr flags) (descend pd (index 1 vaddr) m2))
          (descend pdpt (index 2 vaddr) m1))
      (descend pml4 (index 3 vaddr) m)

unfoldable pub vmm_map_page : (pml4 vaddr paddr flags : ℕ) → Machine → Machine
vmm_map_page pml4 vaddr paddr flags m = (map_page pml4 vaddr paddr flags m).1

-- The function is empty in the source.
unfoldable pub vmm_unmap_page : (pml4 vaddr : ℕ) → Machine → Machine
vmm_unmap_page pml4 vaddr m = m

pub record Vmm : Type 0 where
  pub machine : Machine
  pub current_pml4 : ℕ
  pub kernel_pml4 : ℕ

abbrev pub vmm_switch_pml4 : ℕ → Vmm → Vmm
vmm_switch_pml4 pml4 v = record v { current_pml4 = pml4 }

-- The loop of `vmm_init` from `addr` on, `rounds` pages.
unfoldable pub identity_map : (rounds addr pml4 : ℕ) → Machine → Machine
identity_map zero addr pml4 m = m
identity_map (suc rounds) addr pml4 m =
    identity_map rounds (addr + page_size) pml4 (vmm_map_page pml4 addr addr user_flags m)

abbrev pub identity_map_end : ℕ
identity_map_end = 0x20000000

-- `vmm_init` does not test the block for its table.
unfoldable pub vmm_init : Vmm → Vmm
vmm_init v =
    let (pml4, m) = pmm_alloc_block v.machine in
    let cleared : Machine = record m { mem = memset pml4 0 page_size m.mem } in
    let mapped = identity_map (identity_map_end / page_size) 0 pml4 cleared in
    record {
      machine = kprint (codes "VMM Initialized.\n") mapped;
      current_pml4 = pml4;
      kernel_pml4 = pml4;
    }

-- The new table's address, or 0.
unfoldable pub vmm_create_user_pml4 : Vmm → ℕ × Vmm
vmm_create_user_pml4 v =
    let (pml4, m) = pmm_alloc_block v.machine in
    let cleared = memset pml4 0 page_size m.mem in
    let shared : Machine = record m {
      mem = write64 (entry_at pml4 0) (read64 (entry_at v.kernel_pml4 0) cleared) cleared;
    } in
    if pml4 == 0 then (0, record v { machine = m }) else (pml4, record v { machine = shared })
