-- ===== src/Elf/Program.antt =====
-- `elf_load_file` of src/kernel/elf.c, from the header to the entry point.
use os_eojin.Base.{
  ℕ, zero, suc, ◌+◌, ◌*◌, ◌/◌, ◌^◌, ◌≤◌, ◌<◌, ◌≡◌, ◌≢◌, refl, Bool, true, false, some, ltb, ◌⊎◌,
  inl, inr, if◌then◌else◌, arith, ◌∙◌, ap, sym,
}
use os_eojin.Machine.{Machine, u64}
use os_eojin.Machine.Bytes.{load_same}
use os_eojin.Pmm.Alloc.{used}
use os_eojin.Vmm.Tree.{IsTree}
use os_eojin.Vmm.User.{IsBytes, load-lt}
use os_eojin.Elf.{
  Segment, segment_at, load_segment, load_segments, if_loaded, elf_check_supported, elf_load_file,
  entry_of, e_entry, e_phoff, e_phnum,
}
use os_eojin.Elf.Header.{IsExecutable, Refuses, elf_check_supported_iff}
use os_eojin.Elf.Load.{Loaded}
use os_eojin.Elf.File.{
  first_of, last_of, IsProgram, LoadedAll, EndsAll, load_segment-Loaded, rest-IsProgram,
  more-LoadedAll, short-LoadedAll,
}

nothing-LoadedAll :
    (file_buffer root : ℕ) (segs : ℕ → Segment) (level : ℕ → ℕ) (m : Machine)
    → IsTree level m
    → LoadedAll file_buffer root 0 segs level m true m
nothing-LoadedAll file_buffer root segs level m tree = record {
  level' = level;
  tree = tree;
  extends = λ p pos. refl;
  plain = λ p was e. e;
  busy = λ j was. was;
  size = refl;
  kept = λ a was e. refl;
  others = λ q w four apart. refl;
  bytes = inl (λ i x less within. absurd (omega arith));
  short = λ e. cc;
}

module _ (file_buffer root fuel : ℕ) (enough : 2 ^ 36 ≤ fuel) where
  load_segments-suc :
      (rounds i phdr : ℕ) (s : Segment) (m m1 : Machine) (ok : Bool)
      → segment_at phdr m.mem ≡ s
      → phdr + 56 < 2 ^ 64
      → i < e_phnum file_buffer m.mem
      → load_segment fuel (root * 4096) file_buffer s m ≡ some (ok, m1)
      → load_segments (suc rounds) fuel (root * 4096) file_buffer i phdr m
        ≡ if_loaded
            (some (ok, m1))
            (load_segments rounds fuel (root * 4096) file_buffer (i + 1) (phdr + 56))
  unfolding load_segments
  load_segments-suc rounds i phdr s m m1 ok reads small less e =
      let plain : u64 (phdr + 56) ≡ phdr + 56 = omega arith in
      let go : ltb i (e_phnum file_buffer m.mem) ≡ true = ground (arith, less) in
      rw (go, reads, e, plain) refl

  load_segments-done :
      (rounds i phdr : ℕ) (m : Machine)
      → e_phnum file_buffer m.mem ≡ i
      → load_segments rounds fuel (root * 4096) file_buffer i phdr m ≡ some (true, m)
  unfolding load_segments
  load_segments-done zero i phdr m all = refl
  load_segments-done (suc rounds) i phdr m all =
      let stop : ltb i (e_phnum file_buffer m.mem) ≡ false = ground (arith, all) in rw stop refl

  -- The header lies in blocks that are in use and hold no tables.
  abbrev pub HeaderKept : (ℕ → ℕ) → Machine → Type 0
  HeaderKept level m =
      (a : ℕ)
      → file_buffer ≤ a
      → a < file_buffer + 64
      → (used m (a / 4096) ≡ true) × (level (a / 4096) ≡ 0)

  -- What follows the first segment.
  next_segment :
      (ok : Bool) (m1 : Machine) (count rounds i phdr : ℕ) (segs : ℕ → Segment) (level : ℕ → ℕ)
      (m : Machine)
      → level root ≡ 4
      → HeaderKept level m
      → e_phnum file_buffer m.mem ≡ i + suc count
      → IsProgram file_buffer phdr (suc count) segs level m
      → load_segments (suc rounds) fuel (root * 4096) file_buffer i phdr m
        ≡ if_loaded
            (some (ok, m1))
            (load_segments rounds fuel (root * 4096) file_buffer (i + 1) (phdr + 56))
      → Loaded file_buffer (segs 0) root level m (first_of (segs 0)) (last_of (segs 0)) ok m1
      → ((level1 : ℕ → ℕ)
          → IsTree level1 m1
          → level1 root ≡ 4
          → HeaderKept level1 m1
          → e_phnum file_buffer m1.mem ≡ i + 1 + count
          → IsProgram file_buffer (phdr + 56) count (λ i. segs (i + 1)) level1 m1
          → EndsAll file_buffer root count
              (λ i. segs (i + 1))
              level1
              m1
              (load_segments rounds fuel (root * 4096) file_buffer (i + 1) (phdr + 56) m1))
      → EndsAll file_buffer root
          (suc count)
          segs
          level
          m
          (load_segments (suc rounds) fuel (root * 4096) file_buffer i phdr m)
  next_segment false m1 count rounds i phdr segs level m four header all program e now rest =
      (false, m1, e, short-LoadedAll file_buffer root count segs level m m1 now)
  next_segment true m1 count rounds i phdr segs level m four header all program e now rest =
      let same = load_same 2 (file_buffer + 56) m1.mem m.mem (λ a lo hi.
        let (was, none') = header a (omega arith) (omega arith) in now.kept a was none') in
      let header1 : HeaderKept now.level' m1 = λ a lo hi.
        let (was, none') = header a lo hi in
        (now.busy (a / 4096) was, now.plain (a / 4096) was none') in
      let (ok, m', e', later) =
        rest now.level' now.tree (now.extends root (omega (arith, four)) ∙ four) header1
          (omega (arith, same, all))
          (rest-IsProgram file_buffer root phdr count segs level m m1 program four now) in
      (
        ok,
        m',
        e ∙ e',
        more-LoadedAll file_buffer root phdr count segs level m m1 program four now m' ok later,
      )

  load_segments-EndsAll :
      (count rounds i phdr : ℕ) (segs : ℕ → Segment) (level : ℕ → ℕ) (m : Machine)
      → count ≤ rounds
      → IsTree level m
      → level root ≡ 4
      → HeaderKept level m
      → e_phnum file_buffer m.mem ≡ i + count
      → IsProgram file_buffer phdr count segs level m
      → EndsAll file_buffer root count segs level m
          (load_segments rounds fuel (root * 4096) file_buffer i phdr m)
  load_segments-EndsAll zero rounds i phdr segs level m le tree four header all program = (
    true,
    m,
    load_segments-done rounds i phdr m (omega (arith, all)),
    nothing-LoadedAll file_buffer root segs level m tree,
  )
  load_segments-EndsAll (suc count) zero i phdr segs level m le tree four header all program =
      absurd (omega arith)
  load_segments-EndsAll (suc count) (suc rounds) i phdr segs level m le tree four header all
        program =
      let at : phdr + 56 * 0 ≡ phdr = omega arith in
      let reads = ap (λ p. segment_at p m.mem) (sym at) ∙ program.reads 0 (omega arith) in
      let (ok, m1, e, now) =
        load_segment-Loaded file_buffer root fuel enough (segs 0) level m tree four
          (program.file 0 (omega arith)) (program.placed 0 (omega arith)) in
      next_segment ok m1 count rounds i phdr segs level m four header all program
        (load_segments-suc rounds i phdr (segs 0) m m1 ok reads (omega (arith, program.small))
          (omega (arith, all)) e)
        now
        (λ level1 tree1 four1 header1 all1 program1.
          load_segments-EndsAll count rounds (i + 1) (phdr + 56) (λ i. segs (i + 1)) level1 m1
            (omega arith) tree1 four1 header1 all1 program1)

  loaded_file :
      (m m' : Machine) (ok : Bool)
      → elf_check_supported file_buffer m ≡ (true, m)
      → file_buffer + e_phoff file_buffer m.mem < 2 ^ 64
      → load_segments
          (2 ^ 16)
          fuel
          (root * 4096)
          file_buffer
          0
          (file_buffer + e_phoff file_buffer m.mem)
          m
        ≡ some (ok, m')
      → elf_load_file fuel (root * 4096) file_buffer m ≡ entry_of file_buffer (some (ok, m'))
  unfolding elf_load_file
  loaded_file m m' ok supported small e =
      let plain : u64 (file_buffer + e_phoff file_buffer m.mem)
          ≡ file_buffer + e_phoff file_buffer m.mem =
        omega arith in
      rw (supported, plain, e) refl

  -- The entry point is read after the segments were loaded.
  entry_same :
      (count : ℕ) (segs : ℕ → Segment) (level : ℕ → ℕ) (m m' : Machine) (ok : Bool)
      → HeaderKept level m
      → LoadedAll file_buffer root count segs level m ok m'
      → entry_of file_buffer (some (ok, m'))
        ≡ some ((if ok then e_entry file_buffer m.mem else 0), m')
  entry_same count segs level m m' false header loaded = refl
  entry_same count segs level m m' true header loaded =
      let e = load_same 8 (file_buffer + 24) m'.mem m.mem (λ a lo hi.
        let (was, none') = header a (omega arith) (omega arith) in loaded.kept a was none') in
      rw e refl

  -- With 2^36 rounds of fuel or more, at an address that is not null, while memory holds bytes and the tables form a tree: `elf_load_file`
  -- ends. A file that is no 64-bit little-endian executable for x86-64 it refuses: it returns 0, and prints
  -- one message at most. For an executable whose header, program headers and data lie in blocks that are in
  -- use and hold no tables, whose sums do not overflow and whose segments end below 2^47 and share no page, it
  -- returns the entry point, or 0 when a page got no block. Afterwards every block is in use, or each address in a page of
  -- a PT_LOAD segment is mapped to a block with the byte of the file, or 0 behind the file's part;
  -- pages of no segment are as they were in every address space, and so is what was in use and no table.
  pub elf_load_file-LoadedAll :
      (segs : ℕ → Segment) (level : ℕ → ℕ) (m : Machine)
      → file_buffer ≢ 0
      → IsBytes m.mem
      → IsTree level m
      → level root ≡ 4
      → (IsExecutable file_buffer m.mem
          → IsProgram file_buffer
              (file_buffer + e_phoff file_buffer m.mem)
              (e_phnum file_buffer m.mem)
              segs
              level
              m)
      → HeaderKept level m
      → ((¬ IsExecutable file_buffer m.mem)
          × ((m' : Machine) × (elf_load_file fuel (root * 4096) file_buffer m ≡ some (0, m'))
              × Refuses m m'))
        ⊎ (IsExecutable file_buffer m.mem
            × ((ok : Bool) × (m' : Machine) × (elf_load_file fuel (root * 4096) file_buffer m
                  ≡ some ((if ok then e_entry file_buffer m.mem else 0), m'))
                × LoadedAll file_buffer root (e_phnum file_buffer m.mem) segs level m ok m'))
  unfolding elf_load_file
  elf_load_file-LoadedAll segs level m there bytes tree four program header =
      elim (elf_check_supported_iff file_buffer m there) [
        | inr (refused, not_elf, silent) ↦
            inl (not_elf, ((elf_check_supported file_buffer m).1, rw refused refl, silent))
        | inl (supported, executable) ↦
            let fit = program executable in
            let (ok, m', e, loaded) =
              load_segments-EndsAll (e_phnum file_buffer m.mem) (2 ^ 16) 0
                (file_buffer + e_phoff file_buffer m.mem) segs level m
                (omega (arith, load-lt 2 (file_buffer + 56) m.mem bytes)) tree four header
                (omega arith) fit in
            inr (
              executable,
              (
                ok,
                m',
                loaded_file m m' ok supported (omega (arith, fit.small)) e
                    ∙ entry_same (e_phnum file_buffer m.mem) segs level m m' ok header loaded,
                loaded,
              ),
            )
      ]
