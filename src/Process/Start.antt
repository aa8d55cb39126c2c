-- ===== src/Process/Start.antt =====
-- What `create_user_process` of src/kernel/process/process.c leaves of memory.
use os_eojin.Base.{
  ℕ, ◌+◌, ◌/◌, ◌^◌, ◌<◌, ◌≤◌, ◌≡◌, ◌≢◌, refl, true, false, ◌==◌, leb, arith, Bool-cases, ◌∙◌, ap,
  ==_ne, ==_iff, ==_refl, ◌⊎◌, inl, inr,
}
use os_eojin.Machine.{Machine}
use os_eojin.Pmm.{pmm_alloc_block}
use os_eojin.Pmm.Alloc.{
  used, IsReserved, pmm_alloc_block-Block, pmm_alloc_block-IsReserved, pmm_alloc_block_frame,
  pmm_alloc_block_outcome,
}
use os_eojin.Vmm.Descend.{pmm_alloc_block_busy}
use os_eojin.Vmm.Init.{AllUsed}
use os_eojin.Process.{
  Kernel, max_processes, stack_size, finish_process, abandon, create_user_process,
}
use os_eojin.Process.Frame.{push_frame_lem}
use os_eojin.Process.Table.{Created, create_user_process-Created}

-- The new process, and the memory that was in use before.
pub record Started (entry pml4 : ℕ) (k k' : Kernel) : Type 0 where
  pub user_rsp : ℕ
  pub created : Created k 0x1b user_rsp 0x23 entry k'
  pub space : (k'.processes k.process_count).pml4 ≡ pml4
  pub kept : (a : ℕ) → used k.machine (a / 4096) ≡ true → k'.machine.mem a ≡ k.machine.mem a
  pub busy : (j : ℕ) → used k.machine j ≡ true → used k'.machine j ≡ true
  pub size : k'.machine.total_blocks ≡ k.machine.total_blocks

module _ (m : Machine) (reserved : IsReserved m) where
  -- An allocation that fails.
  pub AllUsed-alloc : (pmm_alloc_block m).0 ≡ 0 → AllUsed (pmm_alloc_block m).1
  AllUsed-alloc e = λ j less. pmm_alloc_block_busy m j (
      (pmm_alloc_block_outcome m reserved).0.0 e j
        (omega (arith, less, (pmm_alloc_block_frame m).1)))

module _ (entry pml4 : ℕ) (k : Kernel) (room : k.process_count < max_processes)
    (small : entry < 2 ^ 64) (reserved : IsReserved k.machine)
    (few : k.machine.total_blocks ≤ 2 ^ 40) where
  abbrev m1 : Machine
  m1 = (pmm_alloc_block k.machine).1

  abbrev m2 : Machine
  m2 = (pmm_alloc_block m1).1

  no_user_stack :
      (pmm_alloc_block k.machine).0 ≡ 0 → AllUsed (create_user_process entry pml4 k).machine
  unfolding create_user_process abandon used
  no_user_stack e =
      let free : leb max_processes k.process_count ≡ false = ground arith in
      let all = AllUsed-alloc k.machine reserved e in rw (free, e) all

  no_kernel_stack :
      (pmm_alloc_block k.machine).0 ≢ 0
      → (pmm_alloc_block m1).0 ≡ 0
      → AllUsed (create_user_process entry pml4 k).machine
  unfolding create_user_process abandon used
  no_kernel_stack got e =
      let free : leb max_processes k.process_count ≡ false = ground arith in
      let all = AllUsed-alloc m1 (pmm_alloc_block-IsReserved k.machine reserved) e in
      rw (free, ==_ne (pmm_alloc_block k.machine).0 0 got, e) all

  both_stacks :
      (pmm_alloc_block k.machine).0 ≢ 0
      → (pmm_alloc_block m1).0 ≢ 0
      → Started entry pml4 k (create_user_process entry pml4 k)
  unfolding create_user_process finish_process used
  both_stacks got got' =
      let free : leb max_processes k.process_count ≡ false = ground arith in
      let user = pmm_alloc_block-Block k.machine reserved got in
      let reserved1 = pmm_alloc_block-IsReserved k.machine reserved in
      let kernel = pmm_alloc_block-Block m1 reserved1 got' in
      let (same, size) = pmm_alloc_block_frame k.machine in
      let (same', size') = pmm_alloc_block_frame m1 in
      let user_rsp = (pmm_alloc_block k.machine).0 + stack_size in
      let fits : user_rsp < 2 ^ 64 = omega (arith, user.address, user.taken.below, few) in
      let top = (pmm_alloc_block m1).0 + stack_size in
      let (deep, _, outside) =
        push_frame_lem 0x1b user_rsp 0x23 entry top m2.mem (omega arith) fits (omega arith) small
          (omega arith) in
      let made = create_user_process-Created entry pml4 k room small got got' fits in
      record {
        user_rsp = user_rsp;
        created = made;
        space =
            rw
              (
                free,
                ==_ne (pmm_alloc_block k.machine).0 0 got,
                ==_ne (pmm_alloc_block m1).0 0 got',
                ==_refl k.process_count,
              )
              refl;
        kept = λ a was.
            let still = pmm_alloc_block_busy k.machine (a / 4096) was in
            let away : a / 4096 ≢ kernel.index =
              λ e. absurd (ground (arith, still, kernel.taken.was_free, ap (used m1) e)) in
            rw
              (free, ==_ne (pmm_alloc_block k.machine).0 0 got, ==_ne (pmm_alloc_block m1).0 0 got')
              (outside a (omega (arith, kernel.address, deep, away))
                ∙ ap (λ f. f a) (same' ∙ same));
        busy = λ j was.
            let still = pmm_alloc_block_busy m1 j (pmm_alloc_block_busy k.machine j was) in
            rw
              (free, ==_ne (pmm_alloc_block k.machine).0 0 got, ==_ne (pmm_alloc_block m1).0 0 got')
              still;
        size =
            rw
              (free, ==_ne (pmm_alloc_block k.machine).0 0 got, ==_ne (pmm_alloc_block m1).0 0 got')
              (size' ∙ size);
      }

  -- With room in the table: unless every block is in use then, there is a new process.
  pub create_user_process-Started :
      Started entry pml4 k (create_user_process entry pml4 k)
      ⊎ AllUsed (create_user_process entry pml4 k).machine
  create_user_process-Started = elim (Bool-cases ((pmm_alloc_block k.machine).0 == 0)) [
    | inl e ↦ inr (no_user_stack ((==_iff (pmm_alloc_block k.machine).0 0).0 e))
    | inr ne ↦
        let got : (pmm_alloc_block k.machine).0 ≢ 0 = λ e. absurd (ground (arith, ne)) in
        elim (Bool-cases ((pmm_alloc_block m1).0 == 0)) [
          | inl e ↦ inr (no_kernel_stack got ((==_iff (pmm_alloc_block m1).0 0).0 e))
          | inr ne' ↦ inl (both_stacks got (λ e. absurd (ground (arith, ne'))))
        ]
  ]
