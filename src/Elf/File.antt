-- ===== src/Elf/File.antt =====
-- What `elf_load_file` of src/kernel/elf.c promises for a whole file.
use os_eojin.Base.{
  ℕ, suc, ◌+◌, ◌-◌, ◌*◌, ◌/◌, ◌%◌, ◌^◌, ◌≤◌, ◌<◌, ◌≡◌, refl, Bool, true, false, Option, some, ◌⊎◌,
  inl, inr, ◌==◌, if◌then◌else◌, arith, Bool-cases, ◌∙◌, ap, subst,
}
use os_eojin.Machine.{Machine}
use os_eojin.Machine.Bytes.{load_same}
use os_eojin.Pmm.Alloc.{used}
use os_eojin.Vmm.Tree.{walk, IsTree, Extends, StayPlain}
use os_eojin.Vmm.SetPage.{SamePage}
use os_eojin.Vmm.Init.{AllUsed}
use os_eojin.Elf.{Segment, segment_at, end_vaddr, page_down, load_segment}
use os_eojin.Elf.Page.{IsPlaced, byte_at}
use os_eojin.Elf.Load.{Holds, IsKept, Loaded, byte_at_same, nothing-Loaded}
use os_eojin.Elf.Segments.{load_pages-Ends}

-- The pages of a segment; only those of type PT_LOAD have any.
abbrev pub first_of : Segment → ℕ
first_of s = if s.p_type == 1 then page_down s.p_vaddr else 0

abbrev pub last_of : Segment → ℕ
last_of s = if s.p_type == 1 then end_vaddr s else 0

abbrev pub InPages : Segment → ℕ → Type 0
InPages s x = (first_of s ≤ x) × (x < last_of s)

-- What the loader needs of a file with the segments `segs 0` to `segs (count - 1)`, whose program headers are at `phdr`.
pub record IsProgram (file_buffer phdr count : ℕ) (segs : ℕ → Segment) (level : ℕ → ℕ) (m : Machine)
    : Type 0 where
  pub small : phdr + 56 * count < 2 ^ 64
  pub reads : (i : ℕ) → i < count → segment_at (phdr + 56 * i) m.mem ≡ segs i
  -- program headers and data lie in blocks that are in use and hold no tables
  pub table :
      (a : ℕ)
      → phdr ≤ a
      → a < phdr + 56 * count
      → (used m (a / 4096) ≡ true) × (level (a / 4096) ≡ 0)
  pub file : (i : ℕ) → i < count → IsKept file_buffer (segs i) level m
  pub placed : (i : ℕ) → i < count → IsPlaced file_buffer (segs i)
  -- no page belongs to two segments
  pub apart :
      (i j x y : ℕ) → i < j → j < count → InPages (segs i) x → InPages (segs j) y → ¬ SamePage y x

-- What holds when the segments were loaded.
pub record LoadedAll (file_buffer root count : ℕ) (segs : ℕ → Segment) (level : ℕ → ℕ) (m : Machine)
    (ok : Bool) (m' : Machine) : Type 0 where
  pub level' : ℕ → ℕ
  pub tree : IsTree level' m'
  pub extends : Extends level level'
  pub plain : StayPlain level level' m
  pub busy : (j : ℕ) → used m j ≡ true → used m' j ≡ true
  pub size : m'.total_blocks ≡ m.total_blocks
  pub kept : (a : ℕ) → used m (a / 4096) ≡ true → level (a / 4096) ≡ 0 → m'.mem a ≡ m.mem a
  -- pages of no segment are as they were, in every address space
  pub others :
      (q w : ℕ)
      → level q ≡ 4
      → ((i x : ℕ) → i < count → InPages (segs i) x → ¬ SamePage x w)
      → walk 4 q w m'.mem ≡ walk 4 q w m.mem
  -- every byte of every segment is in place, or every block is in use
  pub bytes :
      ((i x : ℕ)
        → i < count
        → InPages (segs i) x
        → Holds level' root x (byte_at file_buffer (segs i) m.mem x) m')
      ⊎ AllUsed m'
  pub short : ok ≡ false → AllUsed m'

-- A program header is read alike where its bytes are kept.
segment_at_same :
    (phdr : ℕ) (mem mem' : ℕ → ℕ)
    → ((a : ℕ) → phdr ≤ a → a < phdr + 56 → mem a ≡ mem' a)
    → segment_at phdr mem ≡ segment_at phdr mem'
segment_at_same phdr mem mem' same =
    let a = load_same 4 phdr mem mem' (λ b lo hi. same b (omega arith) (omega arith)) in
    let b = load_same 8 (phdr + 8) mem mem' (λ b lo hi. same b (omega arith) (omega arith)) in
    let c = load_same 8 (phdr + 16) mem mem' (λ b lo hi. same b (omega arith) (omega arith)) in
    let d = load_same 8 (phdr + 32) mem mem' (λ b lo hi. same b (omega arith) (omega arith)) in
    let e = load_same 8 (phdr + 40) mem mem' (λ b lo hi. same b (omega arith) (omega arith)) in
    rw (a, b, c, d, e) refl

module _ (file_buffer root fuel : ℕ) (enough : 2 ^ 36 ≤ fuel) where
  -- One segment, of type PT_LOAD or not.
  pub load_segment-Loaded :
      (s : Segment) (level : ℕ → ℕ) (m : Machine)
      → IsTree level m
      → level root ≡ 4
      → IsKept file_buffer s level m
      → IsPlaced file_buffer s
      → (ok : Bool) × (m' : Machine) × (load_segment fuel (root * 4096) file_buffer s m
          ≡ some (ok, m'))
        × Loaded file_buffer s root level m (first_of s) (last_of s) ok m'
  unfolding load_segment
  load_segment-Loaded s level m tree four file placed = elim (Bool-cases (s.p_type == 1)) [
    | inr other ↦ (
      true,
      m,
      rw other refl,
      nothing-Loaded file_buffer s root level m (first_of s) (last_of s) tree
          (ground (arith, other)),
    )
    | inl load' ↦
        let (ok, m', e, loaded) =
          load_pages-Ends file_buffer root s placed fuel (page_down s.p_vaddr) level m tree four
            file (omega arith) (omega (arith, placed.memory))
            (omega (arith, placed.memory, enough)) in
        (ok, m', rw load' e, rw load' loaded)
  ]

-- One segment, and the others behind it.
module _ (file_buffer root phdr count : ℕ) (segs : ℕ → Segment) (level : ℕ → ℕ) (m m1 : Machine)
    (program : IsProgram file_buffer phdr (suc count) segs level m) (four : level root ≡ 4)
    (now : Loaded file_buffer
      (segs 0)
      root
      level
      m
      (first_of (segs 0))
      (last_of (segs 0))
      true
      m1) where
  abbrev behind : ℕ → Segment
  behind i = segs (i + 1)

  pub rest-IsProgram : IsProgram file_buffer (phdr + 56) count behind now.level' m1
  rest-IsProgram = record {
    small = omega (arith, program.small);
    reads = λ i less.
        let at : phdr + 56 + 56 * i ≡ phdr + 56 * (i + 1) = omega arith in
        ap (λ p. segment_at p m1.mem) at
        ∙ segment_at_same (phdr + 56 * (i + 1)) m1.mem m.mem (λ a lo hi.
          let (was, none') = program.table a (omega arith) (omega arith) in now.kept a was none')
        ∙ program.reads (i + 1) (omega arith);
    table = λ a lo hi.
        let (was, none') = program.table a (omega arith) (omega arith) in
        (now.busy (a / 4096) was, now.plain (a / 4096) was none');
    file = λ i less a lo hi.
        let (was, none') = program.file (i + 1) (omega arith) a lo hi in
        (now.busy (a / 4096) was, now.plain (a / 4096) was none');
    placed = λ i less. program.placed (i + 1) (omega arith);
    apart = λ i j x y less less' in_i in_j.
        program.apart (i + 1) (j + 1) x y (omega arith) (omega arith) in_i in_j;
  }

  module _ (m' : Machine) (ok : Bool)
      (later : LoadedAll file_buffer root count behind now.level' m1 ok m') where
    root1 : now.level' root ≡ 4
    root1 = now.extends root (omega (arith, four)) ∙ four

    first-kept :
        (x b : ℕ)
        → InPages (segs 0) x
        → Holds now.level' root x b m1
        → Holds later.level' root x b m'
    first-kept x b within (p, way, none', was, value) =
        let at : (p * 4096 + x % 4096) / 4096 ≡ p = omega arith in
        (
          p,
          later.others root x root1 (λ i y less in_i.
                program.apart 0 (i + 1) x y (omega arith) (omega arith) within in_i)
              ∙ way,
          later.plain p was none',
          later.busy p was,
          later.kept (p * 4096 + x % 4096) (ap (used m1) at ∙ was) (ap now.level' at ∙ none')
              ∙ value,
        )

    rest-kept :
        (i x : ℕ)
        → i < count
        → Holds later.level' root x (byte_at file_buffer (segs (i + 1)) m1.mem x) m'
        → Holds later.level' root x (byte_at file_buffer (segs (i + 1)) m.mem x) m'
    rest-kept i x less =
        subst (λ b. Holds later.level' root x b m')
          (byte_at_same file_buffer (segs (i + 1)) level m (program.file (i + 1) (omega arith)) x
            m1.mem now.kept)

    any-kept :
        ((x : ℕ)
          → InPages (segs 0) x
          → Holds later.level' root x (byte_at file_buffer (segs 0) m.mem x) m')
        → ((i x : ℕ)
            → i < count
            → InPages (segs (i + 1)) x
            → Holds later.level' root x (byte_at file_buffer (segs (i + 1)) m.mem x) m')
        → (i x : ℕ) → i < suc count
        → InPages (segs i) x
        → Holds later.level' root x (byte_at file_buffer (segs i) m.mem x) m'
    any-kept first rest i x less within = elim (Bool-cases (i == 0)) [
      | inl start ↦
          let e : 0 ≡ i = ground (arith, start) in
          subst
            (λ i.
              InPages (segs i) x
              → Holds later.level' root x (byte_at file_buffer (segs i) m.mem x) m')
            e (first x) within
      | inr after ↦
          let e : i - 1 + 1 ≡ i = ground (arith, after) in
          subst
            (λ i.
              InPages (segs i) x
              → Holds later.level' root x (byte_at file_buffer (segs i) m.mem x) m')
            e (rest (i - 1) x (omega (arith, e))) within
    ]

    pub more-LoadedAll : LoadedAll file_buffer root (suc count) segs level m ok m'
    more-LoadedAll = record {
      level' = later.level';
      tree = later.tree;
      extends =
          λ p pos. later.extends p (omega (arith, now.extends p pos, pos)) ∙ now.extends p pos;
      plain = λ p was none'. later.plain p (now.busy p was) (now.plain p was none');
      busy = λ j was. later.busy j (now.busy j was);
      size = later.size ∙ now.size;
      kept = λ a was none'.
          later.kept a (now.busy (a / 4096) was) (now.plain (a / 4096) was none')
          ∙ now.kept a was none';
      others = λ q w four' apart.
          later.others q w (now.extends q (omega (arith, four')) ∙ four')
            (λ i x less within. apart (i + 1) x (omega arith) within)
          ∙ now.others q w four' (λ x lo hi. apart 0 x (omega arith) (lo, hi));
      bytes = elim now.bytes [
        | inr full ↦ inr (λ j less. later.busy j (full j (omega (arith, less, later.size))))
        | inl old ↦ elim later.bytes [
          | inr full ↦ inr full
          | inl new ↦ inl (
              any-kept
                (λ x within.
                  first-kept x (byte_at file_buffer (segs 0) m.mem x) within
                    (old x within.0 within.1))
                (λ i x less within. rest-kept i x less (new i x less within)))
        ]
      ];
      short = later.short;
    }

-- Without memory for the first segment the loop ends.
pub short-LoadedAll :
    (file_buffer root count : ℕ) (segs : ℕ → Segment) (level : ℕ → ℕ) (m m1 : Machine)
    → Loaded file_buffer (segs 0) root level m (first_of (segs 0)) (last_of (segs 0)) false m1
    → LoadedAll file_buffer root (suc count) segs level m false m1
short-LoadedAll file_buffer root count segs level m m1 now = record {
  level' = now.level';
  tree = now.tree;
  extends = now.extends;
  plain = now.plain;
  busy = now.busy;
  size = now.size;
  kept = now.kept;
  others = λ q w four apart. now.others q w four (λ x lo hi. apart 0 x (omega arith) (lo, hi));
  bytes = inr (now.short refl);
  short = now.short;
}

abbrev pub EndsAll :
    ℕ → ℕ → ℕ → (ℕ → Segment) → (ℕ → ℕ) → Machine → Option (Bool × Machine) → Type 0
EndsAll file_buffer root count segs level m r =
    (ok : Bool) × (m' : Machine) × (r ≡ some (ok, m'))
    × LoadedAll file_buffer root count segs level m ok m'
