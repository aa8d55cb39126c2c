-- ===== src/Vmm/Descend.antt =====
-- One step of `vmm_map_page` in src/kernel/vmm.c down the tree of tables.
use os_eojin.Base.{
  ℕ, ◌+◌, ◌-◌, ◌*◌, ◌≤◌, ◌<◌, ◌≡◌, ◌≢◌, refl, true, false, Option, none, some, ◌==◌, bit_or, arith,
  ap, ap₂, ◌∙◌, sym, Bool-cases, inl, inr, subst, ◌⊎◌, ==_ne, ==_iff,
}
use os_eojin.Machine.{Machine, memset, write64}
use os_eojin.Pmm.{pmm_alloc_block}
use os_eojin.Pmm.Alloc.{
  used, IsReserved, pmm_alloc_block-Block, pmm_alloc_block-IsReserved, pmm_alloc_block_frame,
  pmm_alloc_block_lem, pmm_alloc_block_outcome,
}
use os_eojin.Vmm.{present, descend, user_flags}
use os_eojin.Vmm.Word.{word, target}
use os_eojin.Vmm.Tree.{IsTree}
use os_eojin.Vmm.Down.{Down, with_level, made-Down}

-- Without a block left nothing changes.
pub record IsFull (m m' : Machine) : Type 0 where
  pub memory : m'.mem ≡ m.mem
  pub full : (j : ℕ) → j < m'.total_blocks → used m' j ≡ true
  pub busy : (j : ℕ) → used m j ≡ true → used m' j ≡ true
  pub size : m'.total_blocks ≡ m.total_blocks

-- A change of the bitmap alone.
pub IsTree-marked :
    (level : ℕ → ℕ) (m m' : Machine)
    → m'.mem ≡ m.mem
    → m'.total_blocks ≡ m.total_blocks
    → IsReserved m'
    → ((j : ℕ) → used m j ≡ true → used m' j ≡ true)
    → IsTree level m
    → IsTree level m'
IsTree-marked level m m' same size reserved busy tree = record {
  reserved = reserved;
  few = omega (arith, size, tree.few);
  taken = λ p some'. busy p (tree.taken p some');
  bound = tree.bound;
  names =
      subst
        (λ mem.
          (p j : ℕ)
          → 2 ≤ level p
          → j < 512
          → present (word p j mem) ≡ true
          → level (target (word p j mem)) + 1 ≡ level p)
        (sym same) tree.names;
  single =
      subst
        (λ mem.
          (p j q i : ℕ)
          → 2 ≤ level p
          → 2 ≤ level q
          → j < 512
          → i < 512
          → present (word p j mem) ≡ true
          → present (word q i mem) ≡ true
          → target (word p j mem) ≡ target (word q i mem)
          → (j ≡ i) × (level p < 4 → p ≡ q))
        (sym same) tree.single;
}

pub pmm_alloc_block_busy :
    (m : Machine) (j : ℕ) → used m j ≡ true → used (pmm_alloc_block m).1 j ≡ true
unfolding used
pmm_alloc_block_busy m j was = elim (pmm_alloc_block_lem m) [
  | inl (i, e, a) ↦ a.marks j ∙ ground (arith, was)
  | inr (e, same, full) ↦ rw same was
]

-- How `descend` ends at entry `i` of the table in block `t`.
abbrev pub Outcome : (ℕ → ℕ) → Machine → ℕ → ℕ → Option ℕ × Machine → Type 0
Outcome level m t i r =
    ((level' : ℕ → ℕ) × (c : ℕ) × (r.0 ≡ some (c * 4096)) × Down level level' t i c m r.1)
    ⊎ ((r.0 ≡ none) × IsFull m r.1 × IsTree level r.1)

descend-there :
    (t i : ℕ) (m : Machine)
    → present (word t i m.mem) ≡ true
    → descend (t * 4096) i m ≡ (some (target (word t i m.mem) * 4096), m)
unfolding descend
descend-there t i m there = rw there refl

descend-full :
    (t i : ℕ) (m : Machine)
    → present (word t i m.mem) ≡ false
    → (pmm_alloc_block m).0 ≡ 0
    → descend (t * 4096) i m ≡ (none, (pmm_alloc_block m).1)
unfolding descend
descend-full t i m absent full = rw (absent, full) refl

abbrev made : ℕ → ℕ → ℕ → Machine → Machine
made t i page m1 = record m1 {
  mem = write64 (t * 4096 + 8 * i) (bit_or page user_flags) (memset page 0 4096 m1.mem);
}

descend-made :
    (t i : ℕ) (m : Machine)
    → present (word t i m.mem) ≡ false
    → (pmm_alloc_block m).0 ≢ 0
    → let m' = made t i (pmm_alloc_block m).0 (pmm_alloc_block m).1 in
      descend (t * 4096) i m ≡ (some (target (word t i m'.mem) * 4096), m')
unfolding descend
descend-made t i m absent got = rw (absent, ==_ne (pmm_alloc_block m).0 0 got) refl

pub descend-Down :
    (level : ℕ → ℕ) (m : Machine) (t i : ℕ)
    → IsTree level m
    → 2 ≤ level t
    → i < 512
    → Outcome level m t i (descend (t * 4096) i m)
unfolding used
descend-Down level m t i tree high small = elim (Bool-cases (present (word t i m.mem))) [
  | inl there ↦ subst (Outcome level m t i) (sym (descend-there t i m there)) (
      inl (
        level,
        target (word t i m.mem),
        refl,
        record {
          tree = tree;
          extends = λ p pos. refl;
          plain = λ p was none'. none';
          links = λ p j two less was. refl;
          linked = there;
          goes = refl;
          keeps = λ p j pos ne less. refl;
          walks = λ n b v here. refl;
          outside = λ a plain. refl;
          busy = λ j was. was;
          size = refl;
        },
      ))
  | inr absent ↦ elim (Bool-cases ((pmm_alloc_block m).0 == 0)) [
    | inl zero' ↦
        let e : (pmm_alloc_block m).0 ≡ 0 = (==_iff (pmm_alloc_block m).0 0).0 zero' in
        subst (Outcome level m t i) (sym (descend-full t i m absent e)) (
          inr (
            refl,
            record {
              memory = (pmm_alloc_block_frame m).0;
              full = λ j less. pmm_alloc_block_busy m j (
                  (pmm_alloc_block_outcome m tree.reserved).0.0 e j
                    (omega (arith, less, (pmm_alloc_block_frame m).1)));
              busy = pmm_alloc_block_busy m;
              size = (pmm_alloc_block_frame m).1;
            },
            IsTree-marked level m (pmm_alloc_block m).1 (pmm_alloc_block_frame m).0
                (pmm_alloc_block_frame m).1 (pmm_alloc_block-IsReserved m tree.reserved)
                (pmm_alloc_block_busy m) tree,
          ))
    | inr got' ↦
        let got : (pmm_alloc_block m).0 ≢ 0 = λ e. absurd (ground (arith, got')) in
        let m' = made t i (pmm_alloc_block m).0 (pmm_alloc_block m).1 in
        let block = pmm_alloc_block-Block m tree.reserved got in
        let (same, size) = pmm_alloc_block_frame m in
        let down =
          made-Down level m m' t i block.index tree high small absent block.taken.was_free
            (omega (arith, block.taken.below, tree.few))
            (ap₂
              (λ page f. write64 (t * 4096 + 8 * i) (bit_or page user_flags) (memset page 0 4096 f))
              block.address same)
            size (pmm_alloc_block-IsReserved m tree.reserved) block.taken.marks in
        subst (Outcome level m t i) (sym (descend-made t i m absent got)) (
          inl (
            with_level block.index (level t - 1) level,
            block.index,
            ap (λ n. some (n * 4096)) down.goes,
            down,
          ))
  ]
]
