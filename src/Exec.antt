-- ===== src/Exec.antt =====
-- The command exec of src/kernel/kernel.c, from the file in memory to the new process.
pub mod Flat
pub mod Binary
pub mod Running
pub mod Spawn
mod Tests
use os_eojin.Base.{
  ℕ, zero, suc, ◌+◌, ◌-◌, ◌*◌, ◌/◌, ◌%◌, ◌^◌, Bool, true, false, Option, none, some, ltb, ◌==◌,
  if◌then◌else◌, codes,
}
use os_eojin.Machine.{Machine, memset, memcpy, u64}
use os_eojin.Pmm.{pmm_alloc_block}
use os_eojin.Vmm.{Vmm, page_size, user_flags, vmm_map_page, vmm_create_user_pml4}
use os_eojin.Elf.{elf_check_file, elf_load_file}
use os_eojin.Process.{Kernel, say, create_user_process}

abbrev pub flat_binary_vaddr : ℕ
flat_binary_vaddr = 0x10000000

-- Memory is read and written at physical addresses, which the code uses as its own: that is right below
-- the 512MB of the identity map, for pages that no call of vmm_map_page has mapped anew.
-- The page at `paddr` of the part of the file from `offset` on.
unfoldable pub copy_flat : (load_addr size offset paddr : ℕ) → (ℕ → ℕ) → ℕ → ℕ
copy_flat load_addr size offset paddr mem =
    let copy_len = if ltb size (u64 (offset + page_size)) then size - offset else page_size in
    memcpy paddr (u64 (load_addr + offset)) copy_len (memset paddr 0 page_size mem)

-- The loop over the pages of a flat binary, and whether it came to its end; `none` without fuel left.
unfoldable pub load_flat : (fuel pml4 load_addr size offset : ℕ) → Machine → Option (Bool × Machine)
load_flat zero pml4 load_addr size offset m = none
load_flat (suc fuel) pml4 load_addr size offset m =
    let (paddr, m1) = pmm_alloc_block m in
    let copied : Machine = record m1 { mem = copy_flat load_addr size offset paddr m1.mem } in
    let mapped = vmm_map_page pml4 (flat_binary_vaddr + offset) paddr user_flags copied in
    let rest = load_flat fuel pml4 load_addr size (u64 (offset + page_size)) mapped in
    if ltb offset size then if paddr == 0 then some (false, m1) else rest else some (true, m)

abbrev pub with_machine : Machine → Kernel → Kernel
with_machine m k = record k { machine = m }

abbrev pub start : (entry_point pml4 : ℕ) → Kernel → Kernel
start entry_point pml4 k = say (codes "Process Created.\n") (create_user_process entry_point pml4 k)

abbrev pub after_elf : (pml4 : ℕ) → Kernel → Option (ℕ × Machine) → Option Kernel
after_elf pml4 k none = none
after_elf pml4 k (some (entry_point, m)) =
    if entry_point == 0
    then some (say (codes "exec: ELF load failed.\n") (with_machine m k))
    else some (start entry_point pml4 (with_machine m k))

abbrev pub after_flat : (pml4 : ℕ) → Kernel → Option (Bool × Machine) → Option Kernel
after_flat pml4 k none = none
after_flat pml4 k (some (false, m)) =
    some (say (codes "exec: OOM for flat binary\n") (with_machine m k))
after_flat pml4 k (some (true, m)) = some (start flat_binary_vaddr pml4 (with_machine m k))

-- The file of `size` bytes lies at `load_addr`; `none` without fuel left.
unfoldable pub spawn : (fuel load_addr size : ℕ) → Kernel → Option Kernel
spawn fuel load_addr size k =
    let vmm : Vmm = record {
      machine = k.machine;
      current_pml4 = k.cr3;
      kernel_pml4 = k.kernel_pml4;
    } in
    let (pml4, v) = vmm_create_user_pml4 vmm in
    let (is_elf, m) = elf_check_file load_addr v.machine in
    let loaded =
      if is_elf
      then after_elf pml4 (with_machine m k) (elf_load_file fuel pml4 load_addr m)
      else after_flat pml4 (with_machine m k) (load_flat fuel pml4 load_addr size 0 m) in
    if pml4 == 0
    then some (say (codes "exec: Failed to create PML4\n") (with_machine v.machine k))
    else loaded
