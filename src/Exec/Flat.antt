-- ===== src/Exec/Flat.antt =====
-- What the loop of exec in src/kernel/kernel.c over the pages of a flat binary leaves.
use os_eojin.Base.{
  ℕ, ◌+◌, ◌-◌, ◌*◌, ◌/◌, ◌%◌, ◌^◌, ◌≤◌, ◌<◌, ◌≡◌, ◌≢◌, refl, true, false, some, inl, inr, ◌==◌, ltb,
  if◌then◌else◌, arith, Bool-cases, ◌∙◌, ap, sym, ==_ne, ==_refl,
}
use os_eojin.Machine.{Machine, u64}
use os_eojin.Pmm.{pmm_alloc_block}
use os_eojin.Pmm.Alloc.{
  used, Block, pmm_alloc_block-Block, pmm_alloc_block-IsReserved, pmm_alloc_block_frame,
}
use os_eojin.Vmm.{user_flags, map_page, vmm_map_page}
use os_eojin.Vmm.Tree.{walk, walk_page, IsTree}
use os_eojin.Vmm.Descend.{IsTree-marked, pmm_alloc_block_busy}
use os_eojin.Vmm.Aside.{walk-aside, IsTree-aside}
use os_eojin.Vmm.Map.{Mapped, vmm_map_page-Mapped}
use os_eojin.Elf.{Segment, copy_page}
use os_eojin.Elf.Page.{IsPlaced, byte_at, copy_page-byte_at}
use os_eojin.Elf.Load.{IsKept, Loaded}
use os_eojin.Exec.{flat_binary_vaddr, copy_flat}

-- A flat binary as one segment.
abbrev pub flat : ℕ → Segment
flat size = record {
  p_type = 1;
  p_offset = 0;
  p_vaddr = flat_binary_vaddr;
  p_filesz = size;
  p_memsz = size;
}

pub flat-IsPlaced :
    (load_addr size : ℕ)
    → size < 2 ^ 32
    → load_addr + size < 2 ^ 64
    → IsPlaced load_addr (flat size)
flat-IsPlaced load_addr size small near = record {
  memory = omega arith;
  data_end = omega arith;
  source = omega arith;
}

-- Both loaders copy alike.
copy_flat_lem :
    (load_addr size offset c : ℕ) (mem : ℕ → ℕ)
    → size < 2 ^ 32
    → load_addr + size < 2 ^ 64
    → offset < size
    → c < 2 ^ 40
    → copy_flat load_addr size offset (c * 4096) mem
      ≡ copy_page load_addr (flat size) (flat_binary_vaddr + offset) (c * 4096) mem
unfolding copy_flat copy_page
copy_flat_lem load_addr size offset c mem small near less low =
    let e1 : u64 (offset + 4096) ≡ offset + 4096 = omega arith in
    let e2 : u64 (flat_binary_vaddr + size) ≡ flat_binary_vaddr + size = omega arith in
    let e3 : u64 (flat_binary_vaddr + offset + 4096) ≡ flat_binary_vaddr + offset + 4096 =
      omega arith in
    let a1 : ltb (flat_binary_vaddr + offset) flat_binary_vaddr ≡ false = ground arith in
    let e4 : u64 (0 + (flat_binary_vaddr + offset - flat_binary_vaddr)) ≡ offset = omega arith in
    let e5 : u64 (c * 4096 + (flat_binary_vaddr + offset - (flat_binary_vaddr + offset)))
        ≡ c * 4096 =
      omega arith in
    elim (Bool-cases (ltb size (offset + 4096))) [
      | inl last ↦
          let b1 : ltb (flat_binary_vaddr + size) (flat_binary_vaddr + offset + 4096) ≡ true =
            ground (arith, last) in
          let b2 : ltb (flat_binary_vaddr + offset) (flat_binary_vaddr + size) ≡ true =
            ground arith in
          let b3 : flat_binary_vaddr + size - (flat_binary_vaddr + offset) ≡ size - offset =
            omega arith in
          rw (e1, e2, e3, a1, last, b1, b2, b3, e4, e5) refl
      | inr more ↦
          let b1 : ltb (flat_binary_vaddr + size) (flat_binary_vaddr + offset + 4096) ≡ false =
            ground (arith, more) in
          let b2 : ltb (flat_binary_vaddr + offset) (flat_binary_vaddr + offset + 4096) ≡ true =
            ground arith in
          let b3 : flat_binary_vaddr + offset + 4096 - (flat_binary_vaddr + offset) ≡ 4096 =
            omega arith in
          rw (e1, e2, e3, a1, more, b1, b2, b3, e4, e5) refl
    ]

-- One round of the loop, with a block for the page.
abbrev pub flat_page : (root load_addr size offset : ℕ) → Machine → Machine
flat_page root load_addr size offset m =
    let (paddr, m1) = pmm_alloc_block m in
    vmm_map_page (root * 4096) (flat_binary_vaddr + offset) paddr user_flags
      (record m1 { mem = copy_flat load_addr size offset paddr m1.mem })

module _ (load_addr root size offset : ℕ) (level : ℕ → ℕ) (m : Machine) (small : size < 2 ^ 32)
    (near : load_addr + size < 2 ^ 64) (less : offset < size) (aligned : offset % 4096 ≡ 0)
    (tree : IsTree level m) (four : level root ≡ 4) (file : IsKept load_addr (flat size) level m)
    (got : (pmm_alloc_block m).0 ≢ 0) where
  abbrev vaddr : ℕ
  vaddr = flat_binary_vaddr + offset

  block : Block m (pmm_alloc_block m).0 (pmm_alloc_block m).1
  block = pmm_alloc_block-Block m tree.reserved got

  c : ℕ
  c = block.index

  plain : level c ≡ 0
  unfolding c
  plain = ground (arith, tree.taken block.index, block.taken.was_free)

  fresh : (p : ℕ) → used m p ≡ true → c ≢ p
  unfolding c
  fresh p was e = absurd (ground (arith, was, block.taken.was_free, ap (used m) e))

  c-lt : c < 2 ^ 40
  unfolding c
  c-lt = omega (arith, block.taken.below, tree.few)

  address : (pmm_alloc_block m).0 ≡ c * 4096
  unfolding c
  address = block.address

  abbrev m1 : Machine
  m1 = (pmm_alloc_block m).1

  tree1 : IsTree level m1
  tree1 =
      let (same, size') = pmm_alloc_block_frame m in
      IsTree-marked level m m1 same size' (pmm_alloc_block-IsReserved m tree.reserved)
        (pmm_alloc_block_busy m) tree

  abbrev m2 : Machine
  m2 = record m1 { mem = copy_flat load_addr size offset (pmm_alloc_block m).0 m1.mem }

  in_use : used m2 c ≡ true
  unfolding c used
  in_use = block.taken.marks block.index ∙ rw (==_refl block.index) refl

  busy2 : (j : ℕ) → used m j ≡ true → used m2 j ≡ true
  unfolding used
  busy2 = pmm_alloc_block_busy m

  written :
      (a : ℕ)
      → m2.mem a ≡ (
          if a / 4096 == c then byte_at load_addr (flat size) m.mem (vaddr + a % 4096) else m.mem a)
  written a =
      ap (λ p. copy_flat load_addr size offset p m1.mem a) address
      ∙ ap (λ f. f a) (copy_flat_lem load_addr size offset c m1.mem small near less c-lt)
      ∙ copy_page-byte_at load_addr vaddr c (flat size) m1.mem
          (flat-IsPlaced load_addr size small near) (omega arith) (omega (arith, c-lt))
          (λ b lo hi e. fresh (b / 4096) (file b lo hi).0 (sym e)) a
      ∙ ap (λ f. if a / 4096 == c then byte_at load_addr (flat size) f (vaddr + a % 4096) else f a)
          (pmm_alloc_block_frame m).0

  kept2 : (a : ℕ) → used m (a / 4096) ≡ true → m2.mem a ≡ m.mem a
  kept2 a was = written a ∙ rw (==_ne (a / 4096) c (λ e. fresh (a / 4096) was (sym e))) refl

  aside2 : (a : ℕ) → 0 < level (a / 4096) → m2.mem a ≡ m1.mem a
  aside2 a pos =
      kept2 a (tree.taken (a / 4096) pos) ∙ ap (λ f. f a) (sym (pmm_alloc_block_frame m).0)

  tree2 : IsTree level m2
  tree2 = IsTree-aside level m1 m2.mem tree1 aside2

  step :
      Mapped level root vaddr
        (pmm_alloc_block m).0
        m2
        (map_page (root * 4096) vaddr (pmm_alloc_block m).0 user_flags m2).0
        (flat_page root load_addr size offset m)
  step =
      vmm_map_page-Mapped vaddr (pmm_alloc_block m).0 user_flags root level m2 (omega arith) refl
        tree2 four

  in_page : (x : ℕ) → (c * 4096 + x % 4096) / 4096 ≡ c
  in_page x = omega arith

  byte_here :
      (x : ℕ)
      → vaddr ≤ x
      → x < vaddr + 4096
      → (if (c * 4096 + x % 4096) / 4096 == c
          then byte_at load_addr (flat size) m.mem (vaddr + (c * 4096 + x % 4096) % 4096)
          else m.mem (c * 4096 + x % 4096))
        ≡ byte_at load_addr (flat size) m.mem x
  byte_here x lo hi =
      let here : ((c * 4096 + x % 4096) / 4096 == c) ≡ true = ground arith in
      let at : vaddr + (c * 4096 + x % 4096) % 4096 ≡ x = omega (arith, aligned) in
      rw (here, at) refl

  pub page-Loaded :
      Loaded load_addr
        (flat size)
        root
        level
        m
        vaddr
        (vaddr + 4096)
        true
        (flat_page root load_addr size offset m)
  page-Loaded = record {
    level' = step.level';
    tree = step.tree;
    extends = step.extends;
    plain = λ p was none'. step.plain p (busy2 p was) none';
    busy = λ j was. step.busy j (busy2 j was);
    size = step.size ∙ (pmm_alloc_block_frame m).1;
    kept = λ a was none'.
        step.outside a (step.plain (a / 4096) (busy2 (a / 4096) was) none') ∙ kept2 a was;
    others = λ q w four' apart.
        step.others q w four' (apart vaddr (omega arith) (omega arith))
        ∙ walk-aside level m1 m2.mem tree1 aside2 4 q w four'
        ∙ ap (walk 4 q w) (pmm_alloc_block_frame m).0;
    bytes = elim (Bool-cases (map_page (root * 4096) vaddr (pmm_alloc_block m).0 user_flags m2).0) [
      | inr lost ↦ inr (step.failed lost).0
      | inl done ↦ inl (λ x lo hi. (
        c,
        walk_page root x vaddr (flat_page root load_addr size offset m).mem (omega (arith, aligned))
            ∙ step.mapped done
            ∙ ap (λ (n : ℕ). some n) (omega (arith, address, c-lt)),
        step.plain c in_use plain,
        step.busy c in_use,
        step.outside (c * 4096 + x % 4096) (ap step.level' (in_page x) ∙ step.plain c in_use plain)
            ∙ written (c * 4096 + x % 4096)
            ∙ byte_here x lo hi,
      ))
    ];
    short = λ e. cc;
  }
