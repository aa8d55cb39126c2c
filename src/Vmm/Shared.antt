-- ===== src/Vmm/Shared.antt =====
-- What the first entry that `vmm_create_user_pml4` of src/kernel/vmm.c copies means for `vmm_map_page`.
use os_eojin.Base.{ℕ, ◌*◌, ◌/◌, ◌%◌, ◌^◌, ◌<◌, ◌≡◌, refl, true, some, arith, ap, ◌∙◌, sym, subst}
use os_eojin.Machine.{Machine}
use os_eojin.Vmm.{index, present, map_page, vmm_map_page}
use os_eojin.Vmm.Word.{word}
use os_eojin.Vmm.Tree.{walk, walk-suc, IsTree}
use os_eojin.Vmm.Map.{vmm_map_page-Mapped}

-- Walks below one first entry agree.
walk_first :
    (q r v : ℕ) (mem : ℕ → ℕ)
    → index 3 v ≡ 0
    → word q 0 mem ≡ word r 0 mem
    → walk 4 q v mem ≡ walk 4 r v mem
walk_first q r v mem low same =
    let e : word q (index 3 v) mem ≡ word r (index 3 v) mem =
      ap (λ j. word q j mem) low ∙ same ∙ ap (λ j. word r j mem) (sym low) in
    walk-suc 3 q v mem ∙ rw e refl ∙ sym (walk-suc 3 r v mem)

-- When two PML4s have the same first entry, and it is present, `vmm_map_page` on one maps a page
-- below 512GB in the other too (flags below 4096 that mark the page as present, on a tree of tables).
pub vmm_map_page-shared :
    (v paddr flags root other : ℕ) (level : ℕ → ℕ) (m : Machine)
    → flags < 4096
    → present flags ≡ true
    → IsTree level m
    → level root ≡ 4
    → level other ≡ 4
    → word other 0 m.mem ≡ word root 0 m.mem
    → present (word root 0 m.mem) ≡ true
    → index 3 v ≡ 0
    → (map_page (root * 4096) v paddr flags m).0 ≡ true
    → walk 4 other v (vmm_map_page (root * 4096) v paddr flags m).mem ≡ some (paddr / 4096 % 2 ^ 40)
vmm_map_page-shared v paddr flags root other level m small odd tree four four' same there low done =
    let step = vmm_map_page-Mapped v paddr flags root level m small odd tree four in
    let here = step.links root 0 (omega (arith, four)) (omega arith) there in
    let there' =
      step.links other 0 (omega (arith, four')) (omega arith)
        (subst (λ w. present w ≡ true) (sym same) there) in
    walk_first other root v (vmm_map_page (root * 4096) v paddr flags m).mem low
      (there' ∙ same ∙ sym here)
    ∙ step.mapped done
