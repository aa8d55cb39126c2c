-- ===== src/Elf.antt =====
-- src/kernel/elf.c: the program loader. A file lies in memory from `file_buffer` on, and its fields are read there.
pub mod Header
pub mod Page
pub mod Load
pub mod Segments
pub mod File
pub mod Program
pub mod Reach
mod Tests
use os_eojin.Base.{
  ℕ, zero, suc, ◌+◌, ◌-◌, ◌*◌, ◌/◌, ◌%◌, ◌^◌, Bool, true, false, not, ◌&&◌, Option, none, some,
  List, ltb, ◌==◌, if◌then◌else◌, codes,
}
use os_eojin.Machine.{Machine, kprint, memset, memcpy, load, read64, u64}
use os_eojin.Pmm.{pmm_alloc_block}
use os_eojin.Vmm.{page_size, user_flags, vmm_map_page}

-- The fields of `Elf64_Ehdr` that the loader reads.
abbrev pub e_ident : ℕ → ℕ → (ℕ → ℕ) → ℕ
e_ident hdr i mem = mem (hdr + i)

abbrev pub e_type : ℕ → (ℕ → ℕ) → ℕ
e_type hdr mem = load 2 (hdr + 16) mem

abbrev pub e_machine : ℕ → (ℕ → ℕ) → ℕ
e_machine hdr mem = load 2 (hdr + 18) mem

abbrev pub e_entry : ℕ → (ℕ → ℕ) → ℕ
e_entry hdr mem = read64 (hdr + 24) mem

abbrev pub e_phoff : ℕ → (ℕ → ℕ) → ℕ
e_phoff hdr mem = read64 (hdr + 32) mem

abbrev pub e_phnum : ℕ → (ℕ → ℕ) → ℕ
e_phnum hdr mem = load 2 (hdr + 56) mem

-- The fields of `Elf64_Phdr` that the loader reads.
pub record Segment : Type 0 where
  pub p_type : ℕ
  pub p_offset : ℕ
  pub p_vaddr : ℕ
  pub p_filesz : ℕ
  pub p_memsz : ℕ

-- `*phdr`, in its 56 bytes.
abbrev pub segment_at : ℕ → (ℕ → ℕ) → Segment
segment_at phdr mem = record {
  p_type = load 4 phdr mem;
  p_offset = read64 (phdr + 8) mem;
  p_vaddr = read64 (phdr + 16) mem;
  p_filesz = read64 (phdr + 32) mem;
  p_memsz = read64 (phdr + 40) mem;
}

-- One test of a header with its message, and the tests behind it.
abbrev pub test : Bool → List ℕ → (Machine → Bool × Machine) → Machine → Bool × Machine
test wrong message next m = if wrong then (false, kprint message m) else next m

unfoldable pub elf_check_file : ℕ → Machine → Bool × Machine
elf_check_file hdr m =
    if hdr == 0
    then (false, m)
    else test (not (e_ident hdr 0 m.mem == 0x7f)) (codes "ELF Header Error: MAG0\n")
        (test (not (e_ident hdr 1 m.mem == b'E')) (codes "ELF Header Error: MAG1\n") (
          test (not (e_ident hdr 2 m.mem == b'L')) (codes "ELF Header Error: MAG2\n") (
            test (not (e_ident hdr 3 m.mem == b'F')) (codes "ELF Header Error: MAG3\n")
              (λ m. (true, m)))))
        m

unfoldable pub elf_check_supported : ℕ → Machine → Bool × Machine
elf_check_supported hdr m =
    let (is_elf, m') = elf_check_file hdr m in
    if not is_elf
    then (false, m')
    else test (not (e_ident hdr 4 m'.mem == 2)) (codes "ELF Error: Not 64-bit\n")
        (test (not (e_ident hdr 5 m'.mem == 1)) (codes "ELF Error: Not Little Endian\n") (
          test (not (e_machine hdr m'.mem == 62)) (codes "ELF Error: Not x86-64\n") (
            test (not (e_type hdr m'.mem == 2) && not (e_type hdr m'.mem == 3))
              (codes "ELF Error: Not Executable\n") (λ m. (true, m)))))
        m'

-- `a & ~(PAGE_SIZE - 1)`
abbrev pub page_down : ℕ → ℕ
page_down a = a / page_size * page_size

abbrev pub end_vaddr : Segment → ℕ
end_vaddr s = page_down (u64 (s.p_vaddr + s.p_memsz + page_size - 1))

-- Memory is read and written at physical addresses, which the code uses as its own: that is right below
-- the 512MB of the identity map, for pages that no call of vmm_map_page has mapped anew.
-- The page at `paddr` of the segment's page `vaddr`: zeros, and the bytes of the file where both overlap.
unfoldable pub copy_page : (file_buffer : ℕ) → Segment → (vaddr paddr : ℕ) → (ℕ → ℕ) → ℕ → ℕ
copy_page file_buffer s vaddr paddr mem =
    let cleared = memset paddr 0 page_size mem in
    let seg_data_end = u64 (s.p_vaddr + s.p_filesz) in
    let page_end = u64 (vaddr + page_size) in
    let copy_start = if ltb vaddr s.p_vaddr then s.p_vaddr else vaddr in
    let copy_end = if ltb seg_data_end page_end then seg_data_end else page_end in
    let file_src_offset = u64 (s.p_offset + (copy_start - s.p_vaddr)) in
    if ltb copy_start copy_end
    then memcpy (u64 (paddr + (copy_start - vaddr))) (u64 (file_buffer + file_src_offset))
        (copy_end - copy_start) cleared
    else cleared

-- The loop over the pages of a segment from `vaddr` on, and whether it came to its end; `none` without fuel left.
unfoldable pub load_pages :
    (fuel pml4 file_buffer : ℕ) → Segment → (vaddr : ℕ) → Machine → Option (Bool × Machine)
load_pages zero pml4 file_buffer s vaddr m = none
load_pages (suc fuel) pml4 file_buffer s vaddr m =
    let (paddr, m1) = pmm_alloc_block m in
    let m2 = vmm_map_page pml4 vaddr paddr user_flags m1 in
    let copied : Machine = record m2 { mem = copy_page file_buffer s vaddr paddr m2.mem } in
    let rest = load_pages fuel pml4 file_buffer s (u64 (vaddr + page_size)) copied in
    if ltb vaddr (end_vaddr s)
    then if paddr == 0 then some (false, kprint (codes "ELF Load Error: OOM\n") m1) else rest
    else some (true, m)

unfoldable pub load_segment :
    (fuel pml4 file_buffer : ℕ) → Segment → Machine → Option (Bool × Machine)
load_segment fuel pml4 file_buffer s m =
    let loaded = load_pages fuel pml4 file_buffer s (page_down s.p_vaddr) m in
    if s.p_type == 1 then loaded else some (true, m)

-- What follows a segment, unless the memory ran out.
abbrev pub if_loaded :
    Option (Bool × Machine) → (Machine → Option (Bool × Machine)) → Option (Bool × Machine)
if_loaded none next = none
if_loaded (some (false, m)) next = some (false, m)
if_loaded (some (true, m)) next = next m

-- The loop over the program headers from number `i` on, at `phdr`. Of 2^16 rounds none is left when `i` is
-- 2^16, which is above any `e_phnum`.
unfoldable pub load_segments :
    (rounds fuel pml4 file_buffer i phdr : ℕ) → Machine → Option (Bool × Machine)
load_segments zero fuel pml4 file_buffer i phdr m = some (true, m)
load_segments (suc rounds) fuel pml4 file_buffer i phdr m =
    let loaded =
      if_loaded (load_segment fuel pml4 file_buffer (segment_at phdr m.mem) m)
        (load_segments rounds fuel pml4 file_buffer (i + 1) (u64 (phdr + 56))) in
    if ltb i (e_phnum file_buffer m.mem) then loaded else some (true, m)

-- `hdr->e_entry`, or 0.
abbrev pub entry_of : ℕ → Option (Bool × Machine) → Option (ℕ × Machine)
entry_of hdr none = none
entry_of hdr (some (false, m)) = some (0, m)
entry_of hdr (some (true, m)) = some (e_entry hdr m.mem, m)

unfoldable pub elf_load_file : (fuel pml4 file_buffer : ℕ) → Machine → Option (ℕ × Machine)
elf_load_file fuel pml4 file_buffer m =
    let (supported, m') = elf_check_supported file_buffer m in
    let phdr = u64 (file_buffer + e_phoff file_buffer m'.mem) in
    let loaded = entry_of file_buffer (load_segments (2 ^ 16) fuel pml4 file_buffer 0 phdr m') in
    if supported then loaded else some (0, m')
