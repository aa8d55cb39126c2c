-- ===== src/Vmm/User.antt =====
-- `vmm_create_user_pml4` of src/kernel/vmm.c: an address space of its own that shares the kernel's first 512GB.
use os_eojin.Base.{
  ℕ, zero, suc, ◌+◌, ◌*◌, ◌/◌, ◌^◌, ◌<◌, ◌≡◌, ◌≢◌, refl, true, false, none, ◌==◌, ◌&&◌,
  if◌then◌else◌, arith, ap, ap₂, ◌∙◌, sym, Bool-cases, inl, inr, subst, ◌⊎◌, ==_ne, ==_refl, ==_iff,
}
use native.Mathlib.Nat.{pow-suc}
use os_eojin.Machine.{Machine, memset, load, read64, write64}
use os_eojin.Machine.Bytes.{store_outside, memset-fill}
use os_eojin.Pmm.{pmm_alloc_block}
use os_eojin.Pmm.Alloc.{
  used, pmm_alloc_block-Block, pmm_alloc_block-IsReserved, pmm_alloc_block_frame,
  pmm_alloc_block_outcome,
}
use os_eojin.Vmm.{Vmm, index, present, page_size, entry_at, vmm_create_user_pml4}
use os_eojin.Vmm.Word.{word, target, word-write64, word-memset}
use os_eojin.Vmm.Tree.{walk, walk-suc, IsTree, Extends, index-lt}
use os_eojin.Vmm.Root.{with_root, IsTree-root, walks-root, Extends-root}

-- Memory holds bytes.
abbrev pub IsBytes : (ℕ → ℕ) → Type 0
IsBytes mem = (a : ℕ) → mem a < 256

pub load-lt : (n a : ℕ) (mem : ℕ → ℕ) → IsBytes mem → load n a mem < 256 ^ n
unfolding load
load-lt zero a mem bytes = omega arith
load-lt (suc n) a mem bytes = omega (arith, bytes a, load-lt n (a + 1) mem bytes, pow-suc 256 n)

word-lt : (p j : ℕ) (mem : ℕ → ℕ) → IsBytes mem → word p j mem < 2 ^ 64
word-lt p j mem bytes = load-lt 8 (p * 4096 + 8 * j) mem bytes

-- How `v'` differs from `v`: block `c`, which was free, is the root of a new address space.
pub record UserSpace (level : ℕ → ℕ) (k c : ℕ) (v v' : Vmm) : Type 0 where
  pub was_free : used v.machine c ≡ false
  pub kernel : v'.kernel_pml4 ≡ v.kernel_pml4
  -- block `c`, and it alone, comes into use and changes
  pub marks : (j : ℕ) → used v'.machine j ≡ (if c == j then true else used v.machine j)
  pub kept : (a : ℕ) → a / 4096 ≢ c → v'.machine.mem a ≡ v.machine.mem a
  pub size : v'.machine.total_blocks ≡ v.machine.total_blocks
  pub tree : IsTree (with_root c level) v'.machine
  pub extends : Extends level (with_root c level)
  -- its first 512GB are the kernel's
  pub shared : (w : ℕ) → index 3 w ≡ 0 → walk 4 c w v'.machine.mem ≡ walk 4 k w v.machine.mem
  -- nothing else is mapped in it
  pub own : (w : ℕ) → index 3 w ≢ 0 → walk 4 c w v'.machine.mem ≡ none
  -- every other address space is as it was
  pub others : (q w : ℕ) → level q ≡ 4 → walk 4 q w v'.machine.mem ≡ walk 4 q w v.machine.mem

abbrev created : Vmm → Machine
created v =
    let (pml4, m) = pmm_alloc_block v.machine in
    let cleared = memset pml4 0 page_size m.mem in
    record m { mem = write64 (entry_at pml4 0) (read64 (entry_at v.kernel_pml4 0) cleared) cleared }

pub made :
    (v : Vmm)
    → (pmm_alloc_block v.machine).0 ≢ 0
    → vmm_create_user_pml4 v ≡ ((pmm_alloc_block v.machine).0, record v { machine = created v })
unfolding vmm_create_user_pml4
made v got = rw (==_ne (pmm_alloc_block v.machine).0 0 got) refl

pub unmade :
    (v : Vmm)
    → (pmm_alloc_block v.machine).0 ≡ 0
    → vmm_create_user_pml4 v ≡ (0, record v { machine = (pmm_alloc_block v.machine).1 })
unfolding vmm_create_user_pml4
unmade v zero' = rw zero' refl

module _ (level : ℕ → ℕ) (v : Vmm) (k c : ℕ) (bytes : IsBytes v.machine.mem)
    (tree : IsTree level v.machine) (root : v.kernel_pml4 ≡ k * 4096) (four : level k ≡ 4)
    (free : used v.machine c ≡ false) (address : (pmm_alloc_block v.machine).0 ≡ c * 4096)
    (marks : (j : ℕ)
      → used (pmm_alloc_block v.machine).1 j ≡ (if c == j then true else used v.machine j)) where
  plain : level c ≡ 0
  plain = ground (arith, tree.taken c, free)

  ne : c ≢ k
  ne = λ e. absurd (omega (arith, plain, four, ap level e))

  abbrev e : ℕ
  e = word k 0 v.machine.mem

  memory : (created v).mem ≡ write64 (c * 4096 + 8 * 0) e (memset (c * 4096) 0 4096 v.machine.mem)
  memory =
      let same = (pmm_alloc_block_frame v.machine).0 in
      let cleared : memset (pmm_alloc_block v.machine).0 0 4096 (pmm_alloc_block v.machine).1.mem
          ≡ memset (c * 4096) 0 4096 v.machine.mem =
        ap₂ (λ p f. memset p 0 4096 f) address same in
      let copied : word k 0 (memset (c * 4096) 0 4096 v.machine.mem) ≡ e =
        word-memset c k 0 v.machine.mem (omega arith) ∙ rw (==_ne c k ne) refl in
      ap₂ (λ p f. write64 (p + 8 * 0) (read64 (v.kernel_pml4 + 8 * 0) f) f) address cleared
      ∙ ap
          (λ p.
            write64 (c * 4096 + 8 * 0) (read64 (p + 8 * 0) (memset (c * 4096) 0 4096 v.machine.mem))
              (memset (c * 4096) 0 4096 v.machine.mem))
          root
      ∙ ap (λ w. write64 (c * 4096 + 8 * 0) w (memset (c * 4096) 0 4096 v.machine.mem)) copied

  words :
      (q j : ℕ)
      → j < 512
      → word q j (created v).mem
        ≡ (if (c == q) && (0 == j) then e else if c == q then 0 else word q j v.machine.mem)
  words q j less =
      ap (word q j) memory
      ∙ word-write64 c 0 q j e (memset (c * 4096) 0 4096 v.machine.mem) (omega arith) less
          (word-lt k 0 v.machine.mem bytes)
      ∙ rw (word-memset c q j v.machine.mem less) refl

  first : word c 0 (created v).mem ≡ e
  first = words c 0 (omega arith) ∙ rw (==_refl c) refl

  empty : (j : ℕ) → 0 < j → j < 512 → word c j (created v).mem ≡ 0
  empty j pos less =
      words c j less ∙ rw (==_refl c, ==_ne 0 j (λ h. absurd (omega (arith, h)))) refl

  same : (q j : ℕ) → c ≢ q → j < 512 → word q j (created v).mem ≡ word q j v.machine.mem
  same q j other less = words q j less ∙ rw (==_ne c q other) refl

  created-walks : (n b w : ℕ) → level b ≡ n → walk n b w (created v).mem ≡ walk n b w v.machine.mem
  unfolding used
  created-walks =
      walks-root level v.machine (created v) c e tree plain first empty same (λ on. (k, four, refl))
        (pmm_alloc_block_frame v.machine).1 (pmm_alloc_block-IsReserved v.machine tree.reserved)
        marks

  created-shared : (w : ℕ) → index 3 w ≡ 0 → walk 4 c w (created v).mem ≡ walk 4 k w v.machine.mem
  created-shared w low =
      let same' : word c (index 3 w) (created v).mem ≡ word k (index 3 w) v.machine.mem =
        ap (λ j. word c j (created v).mem) low
        ∙ first
        ∙ ap (λ j. word k j v.machine.mem) (sym low) in
      walk-suc 3 c w (created v).mem
      ∙ elim (Bool-cases (present (word k (index 3 w) v.machine.mem))) [
        | inr gone ↦ rw (same', gone) refl
        | inl there ↦
            let down = tree.names k (index 3 w) (omega (arith, four)) (index-lt 3 w) there in
            rw (same', there)
              (created-walks 3 (target (word k (index 3 w) v.machine.mem)) w
                (omega (arith, down, four)))
      ]
      ∙ sym (walk-suc 3 k w v.machine.mem)

  created-own : (w : ℕ) → index 3 w ≢ 0 → walk 4 c w (created v).mem ≡ none
  created-own w high =
      let empty' = empty (index 3 w) (omega (arith, high)) (index-lt 3 w) in
      walk-suc 3 c w (created v).mem ∙ rw empty' refl

  created-kept : (a : ℕ) → a / 4096 ≢ c → (created v).mem a ≡ v.machine.mem a
  created-kept a away =
      ap (λ f. f a) memory
      ∙ store_outside 8 (c * 4096 + 8 * 0) e a (memset (c * 4096) 0 4096 v.machine.mem)
          (omega (arith, away))
      ∙ memset-fill 4096 (c * 4096) 0 a v.machine.mem
      ∙ ground (arith, away)

  created-UserSpace : UserSpace level k c v (record v { machine = created v })
  unfolding used
  created-UserSpace = record {
    was_free = free;
    kernel = refl;
    marks = marks;
    kept = created-kept;
    size = (pmm_alloc_block_frame v.machine).1;
    tree =
        IsTree-root level v.machine (created v) c e tree plain first empty same
          (λ on. (k, four, refl)) (pmm_alloc_block_frame v.machine).1
          (pmm_alloc_block-IsReserved v.machine tree.reserved) marks;
    extends =
        Extends-root level v.machine (created v) c e tree plain first empty same
          (λ on. (k, four, refl)) (pmm_alloc_block_frame v.machine).1
          (pmm_alloc_block-IsReserved v.machine tree.reserved) marks;
    shared = created-shared;
    own = created-own;
    others = λ q w four'. created-walks 4 q w four';
  }

-- While memory holds bytes, the tables form a tree and the kernel's PML4 is one of its roots:
-- `vmm_create_user_pml4` returns 0 if no block is free, and changes no memory then. Otherwise it returns the address
-- of a block that was free, now the root of an address space whose first 512GB are the kernel's and in
-- which nothing else is mapped; the tables still form a tree, and every other address space is as it was.
pub vmm_create_user_pml4-UserSpace :
    (level : ℕ → ℕ) (v : Vmm) (k : ℕ)
    → IsBytes v.machine.mem
    → IsTree level v.machine
    → v.kernel_pml4 ≡ k * 4096
    → level k ≡ 4
    → (((vmm_create_user_pml4 v).0 ≡ 0)
        × ((j : ℕ) → j < v.machine.total_blocks → used v.machine j ≡ true)
        × ((vmm_create_user_pml4 v).1.machine.mem ≡ v.machine.mem))
      ⊎ ((c : ℕ) × ((vmm_create_user_pml4 v).0 ≡ c * 4096)
          × UserSpace level k c v (vmm_create_user_pml4 v).1)
vmm_create_user_pml4-UserSpace level v k bytes tree root four =
    elim (Bool-cases ((pmm_alloc_block v.machine).0 == 0)) [
      | inl zero' ↦
          let zero'' = (==_iff (pmm_alloc_block v.machine).0 0).0 zero' in
          let e = unmade v zero'' in
          inl (
            ap (λ r. r.0) e,
            (pmm_alloc_block_outcome v.machine tree.reserved).0.0 zero'',
            ap (λ r. r.1.machine.mem) e ∙ (pmm_alloc_block_frame v.machine).0,
          )
      | inr got' ↦
          let got : (pmm_alloc_block v.machine).0 ≢ 0 = λ e. absurd (ground (arith, got')) in
          let block = pmm_alloc_block-Block v.machine tree.reserved got in
          let e = made v got in
          inr (
            block.index,
            ap (λ r. r.0) e ∙ block.address,
            subst (λ r. UserSpace level k block.index v r.1) (sym e)
                (created-UserSpace level v k block.index bytes tree root four block.taken.was_free
                  block.address block.taken.marks),
          )
    ]
