-- ===== src/Elf/Load.antt =====
-- What the loop of `elf_load_file` in src/kernel/elf.c over the pages of a segment leaves.
use os_eojin.Base.{
  List, ℕ, ◌+◌, ◌-◌, ◌*◌, ◌/◌, ◌%◌, ◌^◌, ◌≤◌, ◌<◌, ◌≡◌, ◌≢◌, refl, Bool, true, false, some, ◌⊎◌,
  inl, inr, ◌==◌, leb, ltb, ◌&&◌, if◌then◌else◌, arith, Bool-cases, ◌∙◌, ap, sym, ==_ne, ==_refl,
}
use os_eojin.Machine.{Machine}
use os_eojin.Pmm.{pmm_alloc_block}
use os_eojin.Pmm.Alloc.{
  used, Block, pmm_alloc_block-Block, pmm_alloc_block-IsReserved, pmm_alloc_block_frame,
  pmm_alloc_block_outcome,
}
use os_eojin.Vmm.{user_flags, map_page, vmm_map_page}
use os_eojin.Vmm.Tree.{walk, walk_page, IsTree, Extends, StayPlain}
use os_eojin.Vmm.Descend.{IsTree-marked, pmm_alloc_block_busy}
use os_eojin.Vmm.Aside.{walk-aside, IsTree-aside}
use os_eojin.Vmm.Map.{Mapped, vmm_map_page-Mapped}
use os_eojin.Vmm.SetPage.{SamePage}
use os_eojin.Vmm.Init.{AllUsed}
use os_eojin.Elf.{Segment, copy_page}
use os_eojin.Elf.Page.{IsPlaced, byte_at, copy_page-byte_at}

-- The walk of `x` from the table in block `root` comes to a block of no table that is in use, with the byte `b`.
abbrev pub Holds : (ℕ → ℕ) → ℕ → ℕ → ℕ → Machine → Type 0
Holds level root x b m =
    (p : ℕ) × (walk 4 root x m.mem ≡ some p)
    × (level p ≡ 0)
    × (used m p ≡ true)
    × (m.mem (p * 4096 + x % 4096) ≡ b)

-- The file's part of the segment lies in blocks that are in use and hold no tables.
abbrev pub IsKept : ℕ → Segment → (ℕ → ℕ) → Machine → Type 0
IsKept file_buffer s level m =
    (a : ℕ)
    → file_buffer + s.p_offset ≤ a
    → a < file_buffer + s.p_offset + s.p_filesz
    → (used m (a / 4096) ≡ true) × (level (a / 4096) ≡ 0)

-- The bytes of the program are those of any memory that keeps the file.
pub byte_at_same :
    (file_buffer : ℕ) (s : Segment) (level : ℕ → ℕ) (m : Machine)
    → IsKept file_buffer s level m
    → (x : ℕ) (mem : ℕ → ℕ)
    → ((a : ℕ) → used m (a / 4096) ≡ true → level (a / 4096) ≡ 0 → mem a ≡ m.mem a)
    → byte_at file_buffer s mem x ≡ byte_at file_buffer s m.mem x
byte_at_same file_buffer s level m file x mem same =
    elim (Bool-cases (leb s.p_vaddr x && ltb x (s.p_vaddr + s.p_filesz))) [
      | inr out ↦ rw out refl
      | inl within ↦
          let a = file_buffer + s.p_offset + (x - s.p_vaddr) in
          let (was, none') = file a (omega arith) (ground (arith, within)) in
          rw within (same a was none')
    ]

-- What holds when the pages from `first` to `last` were loaded.
pub record Loaded (file_buffer : ℕ) (s : Segment) (root : ℕ) (level : ℕ → ℕ) (m : Machine)
    (first last : ℕ) (ok : Bool) (m' : Machine) : Type 0 where
  pub level' : ℕ → ℕ
  pub tree : IsTree level' m'
  pub extends : Extends level level'
  pub plain : StayPlain level level' m
  pub busy : (j : ℕ) → used m j ≡ true → used m' j ≡ true
  pub size : m'.total_blocks ≡ m.total_blocks
  -- what was in use and no table keeps its bytes
  pub kept : (a : ℕ) → used m (a / 4096) ≡ true → level (a / 4096) ≡ 0 → m'.mem a ≡ m.mem a
  -- no other page comes, goes or moves, in any address space
  pub others :
      (q w : ℕ)
      → level q ≡ 4
      → ((x : ℕ) → first ≤ x → x < last → ¬ SamePage x w)
      → walk 4 q w m'.mem ≡ walk 4 q w m.mem
  -- the bytes of the program are in place, or every block is in use
  pub bytes :
      ((x : ℕ) → first ≤ x → x < last → Holds level' root x (byte_at file_buffer s m.mem x) m')
      ⊎ AllUsed m'
  pub short : ok ≡ false → AllUsed m'

pub nothing-Loaded :
    (file_buffer : ℕ) (s : Segment) (root : ℕ) (level : ℕ → ℕ) (m : Machine) (first last : ℕ)
    → IsTree level m
    → last ≤ first
    → Loaded file_buffer s root level m first last true m
nothing-Loaded file_buffer s root level m first last tree done = record {
  level' = level;
  tree = tree;
  extends = λ p pos. refl;
  plain = λ p was e. e;
  busy = λ j was. was;
  size = refl;
  kept = λ a was e. refl;
  others = λ q w four apart. refl;
  bytes = inl (λ x lo hi. absurd (omega arith));
  short = λ e. cc;
}

-- Without a block the loop ends, with or without a message.
pub full-Loaded :
    (file_buffer : ℕ) (s : Segment) (root : ℕ) (level : ℕ → ℕ) (m : Machine) (first last : ℕ)
    (console : List (List ℕ))
    → IsTree level m
    → (pmm_alloc_block m).0 ≡ 0
    → Loaded file_buffer s root level m first last false
        (record (pmm_alloc_block m).1 { console = console })
unfolding used
full-Loaded file_buffer s root level m first last console tree e =
    let (same, size) = pmm_alloc_block_frame m in
    let all : AllUsed (pmm_alloc_block m).1 = λ j less.
      pmm_alloc_block_busy m j
        ((pmm_alloc_block_outcome m tree.reserved).0.0 e j (omega (arith, less, size))) in
    record {
      level' = level;
      tree =
          IsTree-marked level m (record (pmm_alloc_block m).1 { console = console }) same size
            (pmm_alloc_block-IsReserved m tree.reserved) (pmm_alloc_block_busy m) tree;
      extends = λ p pos. refl;
      plain = λ p was h. h;
      busy = pmm_alloc_block_busy m;
      size = size;
      kept = λ a was h. ap (λ f. f a) same;
      others = λ q w four apart. ap (walk 4 q w) same;
      bytes = inr all;
      short = λ h. all;
    }

-- One round of the loop, with a block for the page.
abbrev pub loaded_page : ℕ → ℕ → Segment → ℕ → Machine → Machine
loaded_page root file_buffer s vaddr m =
    let (paddr, m1) = pmm_alloc_block m in
    let m2 = vmm_map_page (root * 4096) vaddr paddr user_flags m1 in
    record m2 { mem = copy_page file_buffer s vaddr paddr m2.mem }

module _ (file_buffer root vaddr : ℕ) (s : Segment) (level : ℕ → ℕ) (m : Machine)
    (placed : IsPlaced file_buffer s) (tree : IsTree level m) (four : level root ≡ 4)
    (file : IsKept file_buffer s level m) (aligned : vaddr % 4096 ≡ 0) (low : vaddr + 4096 ≤ 2 ^ 47)
    (got : (pmm_alloc_block m).0 ≢ 0) where
  block : Block m (pmm_alloc_block m).0 (pmm_alloc_block m).1
  block = pmm_alloc_block-Block m tree.reserved got

  c : ℕ
  c = block.index

  taken_plain : level c ≡ 0
  unfolding c
  taken_plain = ground (arith, tree.taken block.index, block.taken.was_free)

  fresh : (p : ℕ) → used m p ≡ true → c ≢ p
  unfolding c
  fresh p was e = absurd (ground (arith, was, block.taken.was_free, ap (used m) e))

  in_use : used (pmm_alloc_block m).1 c ≡ true
  unfolding c
  in_use = block.taken.marks block.index ∙ rw (==_refl block.index) refl

  c-lt : c < 2 ^ 40
  unfolding c
  c-lt = omega (arith, block.taken.below, tree.few)

  address : (pmm_alloc_block m).0 ≡ c * 4096
  unfolding c
  address = block.address

  tree1 : IsTree level (pmm_alloc_block m).1
  tree1 =
      let (same, size) = pmm_alloc_block_frame m in
      IsTree-marked level m (pmm_alloc_block m).1 same size
        (pmm_alloc_block-IsReserved m tree.reserved) (pmm_alloc_block_busy m) tree

  abbrev m2 : Machine
  m2 = vmm_map_page (root * 4096) vaddr (pmm_alloc_block m).0 user_flags (pmm_alloc_block m).1

  step :
      Mapped level root vaddr
        (pmm_alloc_block m).0
        (pmm_alloc_block m).1
        (map_page (root * 4096) vaddr (pmm_alloc_block m).0 user_flags (pmm_alloc_block m).1).0
        m2
  step =
      vmm_map_page-Mapped vaddr (pmm_alloc_block m).0 user_flags root level (pmm_alloc_block m).1
        (omega arith) refl tree1 four

  abbrev m3 : Machine
  m3 = loaded_page root file_buffer s vaddr m

  c-plain : step.level' c ≡ 0
  c-plain = step.plain c in_use taken_plain

  -- What was in use and no table is as it was before the page is written.
  before : (a : ℕ) → used m (a / 4096) ≡ true → level (a / 4096) ≡ 0 → m2.mem a ≡ m.mem a
  before a was none' =
      step.outside a (step.plain (a / 4096) (pmm_alloc_block_busy m (a / 4096) was) none')
      ∙ ap (λ f. f a) (pmm_alloc_block_frame m).0

  written :
      (a : ℕ)
      → m3.mem a
        ≡ (if a / 4096 == c then byte_at file_buffer s m2.mem (vaddr + a % 4096) else m2.mem a)
  written a =
      ap (λ p. copy_page file_buffer s vaddr p m2.mem a) address
      ∙ copy_page-byte_at file_buffer vaddr c s m2.mem placed (omega arith) (omega (arith, c-lt))
          (λ b lo hi e. fresh (b / 4096) (file b lo hi).0 (sym e)) a

  kept3 : (a : ℕ) → used m (a / 4096) ≡ true → level (a / 4096) ≡ 0 → m3.mem a ≡ m.mem a
  kept3 a was none' =
      written a ∙ rw (==_ne (a / 4096) c (λ e. fresh (a / 4096) was (sym e))) (before a was none')

  aside3 : (a : ℕ) → 0 < step.level' (a / 4096) → m3.mem a ≡ m2.mem a
  aside3 a pos =
      written a
      ∙ rw (==_ne (a / 4096) c (λ e. absurd (omega (arith, pos, c-plain, ap step.level' e)))) refl

  root2 : step.level' root ≡ 4
  root2 = step.extends root (omega (arith, four)) ∙ four

  in_page :
      (x : ℕ)
      → vaddr ≤ x
      → x < vaddr + 4096
      → (if (c * 4096 + x % 4096) / 4096 == c
          then byte_at file_buffer s m2.mem (vaddr + (c * 4096 + x % 4096) % 4096)
          else m2.mem (c * 4096 + x % 4096))
        ≡ byte_at file_buffer s m.mem x
  in_page x lo hi =
      let here : ((c * 4096 + x % 4096) / 4096 == c) ≡ true = ground arith in
      let at : vaddr + (c * 4096 + x % 4096) % 4096 ≡ x = omega (arith, aligned) in
      rw (here, at) (byte_at_same file_buffer s level m file x m2.mem before)

  pub page-Loaded : Loaded file_buffer s root level m vaddr (vaddr + 4096) true m3
  unfolding used
  page-Loaded = record {
    level' = step.level';
    tree = IsTree-aside step.level' m2 m3.mem step.tree aside3;
    extends = step.extends;
    plain = λ p was none'. step.plain p (pmm_alloc_block_busy m p was) none';
    busy = λ j was. step.busy j (pmm_alloc_block_busy m j was);
    size = step.size ∙ (pmm_alloc_block_frame m).1;
    kept = kept3;
    others = λ q w four' apart.
        walk-aside step.level' m2 m3.mem step.tree aside3 4 q w
          (step.extends q (omega (arith, four')) ∙ four')
        ∙ step.others q w four' (apart vaddr (omega arith) (omega arith))
        ∙ ap (walk 4 q w) (pmm_alloc_block_frame m).0;
    bytes =
        elim (Bool-cases
          (map_page (root * 4096) vaddr (pmm_alloc_block m).0 user_flags (pmm_alloc_block m).1).0) [
            | inr lost ↦ inr (step.failed lost).0
            | inl done ↦ inl (λ x lo hi. (
              c,
              walk_page root x vaddr m3.mem (omega (arith, aligned))
                  ∙ walk-aside step.level' m2 m3.mem step.tree aside3 4 root vaddr root2
                  ∙ step.mapped done
                  ∙ ap (λ (n : ℕ). some n) (omega (arith, address, c-lt)),
              c-plain,
              step.busy c in_use,
              written (c * 4096 + x % 4096) ∙ in_page x lo hi,
            ))
          ];
    short = λ e. cc;
  }
