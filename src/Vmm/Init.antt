-- ===== src/Vmm/Init.antt =====
-- What `vmm_init` of src/kernel/vmm.c promises: the first 512MB are mapped to themselves.
use os_eojin.Base.{
  ℕ, zero, suc, ◌+◌, ◌*◌, ◌/◌, ◌^◌, ◌≤◌, ◌<◌, ◌≡◌, ◌≢◌, refl, true, some, ◌==◌, if◌then◌else◌,
  arith, ap, ap₂, ◌∙◌, sym, Bool-cases, inl, inr, subst, ◌⊎◌, ==_ne, ==_refl, codes, List,
}
use os_eojin.Machine.{Machine, memset, kprint}
use os_eojin.Pmm.{pmm_alloc_block}
use os_eojin.Pmm.Alloc.{
  used, IsReserved, pmm_alloc_block-Block, pmm_alloc_block-IsReserved, pmm_alloc_block_frame,
}
use os_eojin.Vmm.{Vmm, user_flags, map_page, vmm_map_page, identity_map, page_size, vmm_init}
use os_eojin.Vmm.Word.{word, word-memset}
use os_eojin.Vmm.Tree.{walk, walk_page, IsTree}
use os_eojin.Vmm.Descend.{IsTree-marked}
use os_eojin.Vmm.Map.{vmm_map_page-Mapped}
use os_eojin.Vmm.Root.{with_root, IsTree-root}

abbrev pub AllUsed : Machine → Type 0
AllUsed m = (j : ℕ) → j < m.total_blocks → used m j ≡ true

-- Every page below page `k` is mapped to itself, unless the blocks ran out.
pub record Identity (root k : ℕ) (m : Machine) : Type 0 where
  pub level : ℕ → ℕ
  pub tree : IsTree level m
  pub four : level root ≡ 4
  pub maps : ((w : ℕ) → w / 4096 < k → walk 4 root w m.mem ≡ some (w / 4096)) ⊎ AllUsed m

Identity-suc :
    (root k : ℕ) (m : Machine)
    → k < 2 ^ 36
    → Identity root k m
    → Identity root (k + 1) (vmm_map_page (root * 4096) (k * 4096) (k * 4096) user_flags m)
Identity-suc root k m small id =
    let step =
      vmm_map_page-Mapped (k * 4096) (k * 4096) user_flags root id.level m (omega arith) refl
        id.tree id.four in
    record {
      level = step.level';
      tree = step.tree;
      four = step.extends root (omega (arith, id.four)) ∙ id.four;
      maps = elim (Bool-cases (map_page (root * 4096) (k * 4096) (k * 4096) user_flags m).0) [
        | inr lost ↦ inr (step.failed lost).0
        | inl done ↦ elim id.maps [
          | inr full ↦ inr (λ j less. step.busy j (full j (omega (arith, less, step.size))))
          | inl before ↦ inl (λ w less. elim (Bool-cases (w / 4096 == k)) [
            | inl new ↦
                walk_page root w (k * 4096) _ (ground (arith, new))
                ∙ step.mapped done
                ∙ ap (λ (n : ℕ). some n) (ground (arith, new))
            | inr old ↦
                step.others root w id.four (λ e. absurd (ground (arith, e)))
                ∙ before w (ground arith)
          ])
        ]
      ];
    }

identity_map-Identity :
    (rounds k root : ℕ) (m : Machine)
    → k + rounds ≤ 2 ^ 36
    → Identity root k m
    → Identity root (k + rounds) (identity_map rounds (k * 4096) (root * 4096) m)
unfolding identity_map
identity_map-Identity zero k root m small id = subst (λ n. Identity root n m) (omega arith) id
identity_map-Identity (suc rounds) k root m small id =
    let next = Identity-suc root k m (omega arith) id in
    let m' = vmm_map_page (root * 4096) (k * 4096) (k * 4096) user_flags m in
    let rest = identity_map-Identity rounds (k + 1) root m' (omega arith) next in
    let e : (k + 1) * 4096 ≡ k * 4096 + page_size = omega arith in
    let e' : k + 1 + rounds ≡ k + suc rounds = omega arith in
    subst (λ n. Identity root n (identity_map rounds (k * 4096 + page_size) (root * 4096) m')) e'
      (subst (λ a. Identity root (k + 1 + rounds) (identity_map rounds a (root * 4096) m')) e rest)

no_tables : (m : Machine) → IsReserved m → m.total_blocks ≤ 2 ^ 40 → IsTree (λ p. 0) m
no_tables m reserved few = record {
  reserved = reserved;
  few = few;
  taken = λ p some'. absurd (omega arith);
  bound = λ p. omega arith;
  names = λ p j two less there. absurd (omega arith);
  single = λ p j q i two two' less less' there there' same. absurd (omega arith);
}

-- What marks blocks as used, or prints, leaves the map.
pub Identity-marked :
    (root k : ℕ) (m m' : Machine)
    → m'.mem ≡ m.mem
    → m'.total_blocks ≡ m.total_blocks
    → IsReserved m'
    → ((j : ℕ) → used m j ≡ true → used m' j ≡ true)
    → Identity root k m
    → Identity root k m'
Identity-marked root k m m' same size reserved busy id = record {
  level = id.level;
  tree = IsTree-marked id.level m m' same size reserved busy id.tree;
  four = id.four;
  maps = elim id.maps [
    | inl there ↦ inl (λ w less. ap (walk 4 root w) same ∙ there w less)
    | inr all ↦ inr (λ j less. busy j (all j (omega (arith, less, size))))
  ];
}

Identity-kprint :
    (root k : ℕ) (text : List ℕ) (m : Machine) → Identity root k m → Identity root k (kprint text m)
unfolding used
Identity-kprint root k text m id =
    Identity-marked root k m (kprint text m) refl refl id.tree.reserved (λ j was. was) id

-- While the first 32MB are reserved and memory has at most 2^40 blocks, `vmm_init` with a block for its
-- PML4 loads that table and keeps it as the kernel's, the tables form a tree, and each address below 512MB is
-- mapped to itself, unless every block is in use at the end.
pub vmm_init-Identity :
    (v : Vmm)
    → IsReserved v.machine
    → v.machine.total_blocks ≤ 2 ^ 40
    → (pmm_alloc_block v.machine).0 ≢ 0
    → (root : ℕ) × ((vmm_init v).kernel_pml4 ≡ root * 4096)
      × ((vmm_init v).current_pml4 ≡ root * 4096)
      × Identity root 131072 (vmm_init v).machine
unfolding vmm_init used
vmm_init-Identity v reserved few got =
    let block = pmm_alloc_block-Block v.machine reserved got in
    let (same, size) = pmm_alloc_block_frame v.machine in
    let (pml4, m) = pmm_alloc_block v.machine in
    let cleared : Machine = record m { mem = memset pml4 0 page_size m.mem } in
    let c = block.index in
    let words : (q j : ℕ)
        → j < 512
        → word q j cleared.mem ≡ (if c == q then 0 else word q j v.machine.mem) =
      λ q j less.
        ap₂ (λ p f. word q j (memset p 0 4096 f)) block.address same
        ∙ word-memset c q j v.machine.mem less in
    let tree =
      IsTree-root (λ p. 0) v.machine cleared c 0 (no_tables v.machine reserved few) refl
        (words c 0 (omega arith) ∙ rw (==_refl c) refl)
        (λ j pos less. words c j less ∙ rw (==_refl c) refl)
        (λ q j ne less. words q j less ∙ rw (==_ne c q ne) refl) (λ h. cc) size
        (pmm_alloc_block-IsReserved v.machine reserved) block.taken.marks in
    let started : Identity c 0 cleared = record {
      level = with_root c (λ p. 0);
      tree = tree;
      four = rw (==_refl c) refl;
      maps = inl (λ w less. absurd (omega arith));
    } in
    let done = identity_map-Identity 131072 0 c cleared (omega arith) started in
    let end =
      subst (λ k. Identity c k (identity_map 131072 0 (c * 4096) cleared)) (omega arith) done in
    let here =
      subst (λ a. Identity c 131072 (identity_map 131072 0 a cleared)) (sym block.address) end in
    (c, block.address, block.address, Identity-kprint c 131072 (codes "VMM Initialized.\n") _ here)
