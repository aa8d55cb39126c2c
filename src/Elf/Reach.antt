-- ===== src/Elf/Reach.antt =====
-- `elf_load_file` of src/kernel/elf.c reads the file and writes the pages at their own addresses, in the
-- address space that is loaded: that is right where the program's pages lie behind all of these.
use os_eojin.Base.{ℕ, ◌+◌, ◌*◌, ◌%◌, ◌^◌, ◌≤◌, ◌<◌, ◌≡◌}
use os_eojin.Machine.{Machine}
use os_eojin.Elf.{Segment, e_phoff, e_phnum}
use os_eojin.Elf.File.{InPages}

-- The file ends below `limit`, and the pages of the segments begin there.
pub record IsApart (limit file_buffer : ℕ) (segs : ℕ → Segment) (mem : ℕ → ℕ) : Type 0 where
  pub aligned : limit % 4096 ≡ 0
  pub header : file_buffer + 64 ≤ limit
  pub headers : file_buffer + e_phoff file_buffer mem + 56 * e_phnum file_buffer mem ≤ limit
  pub file :
      (i : ℕ)
      → i < e_phnum file_buffer mem
      → file_buffer + (segs i).p_offset + (segs i).p_filesz ≤ limit
  pub pages :
      (i x : ℕ) → i < e_phnum file_buffer mem → InPages (segs i) x → (limit ≤ x) × (x < 2 ^ 47)
