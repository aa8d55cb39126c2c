-- ===== src/Elf/Tests.antt =====
-- The theorems about src/kernel/elf.c at a file with one segment, of three bytes.
use os_eojin.Base.{ℕ, ◌-◌, ◌≡◌, refl, Bool, true, List, [], ◌∷◌, if◌then◌else◌, ltb, ◌&&◌, get_or}
use os_eojin.Machine.{Machine, load}
use os_eojin.Vmm.Sample.{machine}
use os_eojin.Elf.{Segment, elf_check_file, elf_check_supported}

-- An ELF header, one program header, and the bytes 1, 2 and 3.
abbrev bytes : List ℕ
bytes =
    0x7f ∷ 69 ∷ 76 ∷ 70 ∷ 2 ∷ 1 ∷ 1 ∷ 0 ∷ 0 ∷ 0 ∷ 0 ∷ 0 ∷ 0 ∷ 0 ∷ 0 ∷ 0 ∷ 2 ∷ 0 ∷ 62 ∷ 0 ∷ 1 ∷ 0 ∷ 0
    ∷ 0 ∷ 0x78 ∷ 0 ∷ 0 ∷ 0x40 ∷ 0 ∷ 0 ∷ 0 ∷ 0 ∷ 64 ∷ 0 ∷ 0 ∷ 0 ∷ 0 ∷ 0 ∷ 0 ∷ 0 ∷ 0 ∷ 0 ∷ 0 ∷ 0 ∷ 0
    ∷ 0 ∷ 0 ∷ 0 ∷ 0 ∷ 0 ∷ 0 ∷ 0 ∷ 64 ∷ 0 ∷ 56 ∷ 0 ∷ 1 ∷ 0 ∷ 0 ∷ 0 ∷ 0 ∷ 0 ∷ 0 ∷ 0 ∷ 1 ∷ 0 ∷ 0 ∷ 0
    ∷ 7 ∷ 0 ∷ 0 ∷ 0 ∷ 120 ∷ 0 ∷ 0 ∷ 0 ∷ 0 ∷ 0 ∷ 0 ∷ 0 ∷ 0x78 ∷ 0 ∷ 0 ∷ 0x40 ∷ 0 ∷ 0 ∷ 0 ∷ 0 ∷ 0x78
    ∷ 0 ∷ 0 ∷ 0x40 ∷ 0 ∷ 0 ∷ 0 ∷ 0 ∷ 3 ∷ 0 ∷ 0 ∷ 0 ∷ 0 ∷ 0 ∷ 0 ∷ 0 ∷ 0x88 ∷ 0x13 ∷ 0 ∷ 0 ∷ 0 ∷ 0 ∷ 0
    ∷ 0 ∷ 0 ∷ 16 ∷ 0 ∷ 0 ∷ 0 ∷ 0 ∷ 0 ∷ 0 ∷ 1 ∷ 2 ∷ 3 ∷ []

-- The file lies at 16MB.
abbrev file : ℕ
file = 0x1000000

abbrev with_file : ℕ → ℕ
with_file a = if ltb a 0x2000000 then get_or bytes (a - file) 0 else 0

abbrev loading : Machine
loading = record machine { mem = with_file }

abbrev segment : Segment
segment = record { p_type = 1; p_offset = 120; p_vaddr = 0x40000078; p_filesz = 3; p_memsz = 5000 }

abbrev are_bytes : List ℕ → Bool
are_bytes [] = true
are_bytes (b ∷ bs) = ltb b 256 && are_bytes bs

-- The file is executable.
accepted : (elf_check_supported file loading).0 ≡ true
unfolding elf_check_supported elf_check_file load
accepted = refl
