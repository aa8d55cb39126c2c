-- ===== src/Vmm/Tests.antt =====
-- The theorems about src/kernel/vmm.c at a machine with one empty PML4 behind the first 32MB.
use os_eojin.Base.{
  ℕ, ◌+◌, ◌*◌, ◌-◌, ◌^◌, ◌/◌, ◌%◌, ◌≡◌, ◌<◌, ◌⊎◌, refl, true, some, [], ◌∷◌, arith, if◌then◌else◌,
  ltb, ◌==◌, ◌||◌, ◌&&◌, get_or, ==_iff, Bool-cases, inl, inr, ap, sym, ◌∙◌,
}
use os_eojin.Base.Bits.{all_below, all_below_sound}
use os_eojin.Machine.{Machine, load, store, memset}
use os_eojin.Machine.Bytes.{load_same}
use os_eojin.Pmm.{pmm_alloc_block, test_bit, set_bit}
use os_eojin.Pmm.Alloc.{used}
use os_eojin.Vmm.{Vmm, present, descend, map_page, vmm_map_page, vmm_init, vmm_create_user_pml4}
use os_eojin.Vmm.Word.{word, target}
use os_eojin.Vmm.Tree.{walk, IsTree}
use os_eojin.Vmm.Sample.{machine, level, machine-IsReserved, machine-IsTree}
use os_eojin.Vmm.Map.{Mapped, vmm_map_page-Mapped}
use os_eojin.Vmm.Init.{Identity, vmm_init-Identity}
use os_eojin.Vmm.Shared.{vmm_map_page-shared}
use os_eojin.Vmm.User.{UserSpace, vmm_create_user_pml4-UserSpace}

abbrev vmm : Vmm
vmm = record { machine = machine; current_pml4 = 8192 * 4096; kernel_pml4 = 8192 * 4096 }

vmm_map_page-Mapped_example :
    Mapped level 8192 0x400123 0x2005000 machine
      (map_page (8192 * 4096) 0x400123 0x2005000 7 machine).0
      (vmm_map_page (8192 * 4096) 0x400123 0x2005000 7 machine)
vmm_map_page-Mapped_example =
    vmm_map_page-Mapped 0x400123 0x2005000 7 8192 level machine (omega arith) refl machine-IsTree
      refl

-- The page is mapped there.
mapped_here :
    walk 4 8192 0x400123 (vmm_map_page (8192 * 4096) 0x400123 0x2005000 7 machine).mem ≡ some 0x2005
unfolding walk vmm_map_page map_page descend pmm_alloc_block load store memset test_bit set_bit
mapped_here = refl

alloc_first : (pmm_alloc_block machine).0 ≡ 8193 * 4096
unfolding pmm_alloc_block test_bit
alloc_first = refl

vmm_init-Identity_example :
    (root : ℕ) × ((vmm_init vmm).kernel_pml4 ≡ root * 4096)
    × ((vmm_init vmm).current_pml4 ≡ root * 4096)
    × Identity root 131072 (vmm_init vmm).machine
vmm_init-Identity_example =
    vmm_init-Identity vmm machine-IsReserved (omega arith)
      (λ e. absurd (omega (arith, alloc_first, e)))

vmm_create_user_pml4-UserSpace_example :
    (((vmm_create_user_pml4 vmm).0 ≡ 0)
      × ((j : ℕ) → j < vmm.machine.total_blocks → used vmm.machine j ≡ true)
      × ((vmm_create_user_pml4 vmm).1.machine.mem ≡ vmm.machine.mem))
    ⊎ ((c : ℕ) × ((vmm_create_user_pml4 vmm).0 ≡ c * 4096)
        × UserSpace level 8192 c vmm (vmm_create_user_pml4 vmm).1)
vmm_create_user_pml4-UserSpace_example =
    vmm_create_user_pml4-UserSpace level vmm 8192 (λ a. omega arith) machine-IsTree refl refl

-- The PML4s in blocks 8192 and 8193 have the same first entry, the PDPT in block 8194.
abbrev two_roots : Machine
two_roots = record {
  mem = λ a.
      if (a / 4096 == 8192 || a / 4096 == 8193) && ltb (a % 4096) 4
      then get_or (7 ∷ 32 ∷ 0 ∷ 2 ∷ []) (a % 4096) 0
      else 0;
  bitmap = λ i. if ltb i 256 then 2 ^ 32 - 1 else 7;
  total_blocks = 8200;
  bitmap_size = 1025;
  console = [];
}

abbrev roots : ℕ → ℕ
roots p = if p == 8192 || p == 8193 then 4 else if p == 8194 then 3 else 0

no_byte : (a : ℕ) → load 8 a (λ b. 0) ≡ 0
unfolding load
no_byte a = refl

-- Every entry but those two is empty.
other_entry :
    (p j : ℕ) → j < 512 → present (word p j two_roots.mem) ≡ true → (j ≡ 0) × (roots p ≡ 4)
other_entry p j less there = elim (Bool-cases ((p == 8192 || p == 8193) && (j == 0))) [
  | inl here ↦ (ground arith, ground arith)
  | inr away ↦
      let e =
        load_same 8 (p * 4096 + 8 * j) two_roots.mem (λ b. 0) (λ b lo hi. ground arith)
        ∙ no_byte (p * 4096 + 8 * j) in
      absurd (ground (arith, e))
]

entry : word 8192 0 two_roots.mem ≡ 8194 * 4096 + 7
unfolding load
entry = refl

entry_too : word 8193 0 two_roots.mem ≡ 8194 * 4096 + 7
unfolding load
entry_too = refl

entry_of : (p : ℕ) → roots p ≡ 4 → word p 0 two_roots.mem ≡ 8194 * 4096 + 7
entry_of p four = elim (Bool-cases (p == 8192)) [
  | inl here ↦ ap (λ p. word p 0 two_roots.mem) ((==_iff p 8192).0 here) ∙ entry
  | inr away ↦
      let here : p ≡ 8193 = ground arith in ap (λ p. word p 0 two_roots.mem) here ∙ entry_too
]

two_roots_table : all_below 8195 (used two_roots) ≡ true
unfolding used test_bit
two_roots_table = refl

two_roots-used : (p : ℕ) → p < 8195 → used two_roots p ≡ true
two_roots-used p h = all_below_sound 8195 (used two_roots) p two_roots_table h

two_roots-IsTree : IsTree roots two_roots
two_roots-IsTree = record {
  reserved = λ j less. two_roots-used j (omega arith);
  few = omega arith;
  taken = λ p some'. two_roots-used p (ground arith);
  bound = λ p. ground arith;
  names = λ p j two less there.
      let (start, four) = other_entry p j less there in
      ap (λ j. roots (target (word p j two_roots.mem)) + 1) start
      ∙ ap (λ w. roots (target w) + 1) (entry_of p four)
      ∙ sym four;
  single = λ p j q i two two' less less' there there' same.
      let (start, four) = other_entry p j less there in
      let (start', four') = other_entry q i less' there' in
      (start ∙ sym start', λ h. absurd (omega (arith, h, four)));
}

done_here : (map_page (8192 * 4096) 0x400000 0x2005000 7 two_roots).0 ≡ true
unfolding vmm_map_page map_page descend pmm_alloc_block load store memset test_bit set_bit
done_here = refl

vmm_map_page-shared_example :
    walk 4 8193 0x400000 (vmm_map_page (8192 * 4096) 0x400000 0x2005000 7 two_roots).mem
    ≡ some (0x2005000 / 4096 % 2 ^ 40)
vmm_map_page-shared_example =
    vmm_map_page-shared 0x400000 0x2005000 7 8192 8193 roots two_roots (omega arith) refl
      two_roots-IsTree refl refl (entry_too ∙ sym entry) (ap present entry) refl done_here
