-- ===== src/Exec/Running.antt =====
-- The process that exec of src/kernel/kernel.c starts for a flat binary whose pages are loaded.
use os_eojin.Base.{
  ℕ, ◌+◌, ◌-◌, ◌*◌, ◌/◌, ◌%◌, ◌^◌, ◌≤◌, ◌<◌, ◌≡◌, ◌≢◌, refl, Bool, true, false, some, ◌⊎◌, inl, inr,
  leb, ltb, ◌&&◌, arith, ◌∙◌, subst, List, codes,
}
use os_eojin.Machine.{Machine, kprint}
use os_eojin.Pmm.Alloc.{used}
use os_eojin.Vmm.Tree.{walk}
use os_eojin.Vmm.Aside.{walk-aside}
use os_eojin.Vmm.Init.{AllUsed}
use os_eojin.Elf.{end_vaddr}
use os_eojin.Elf.Page.{byte_at}
use os_eojin.Elf.Load.{Loaded}
use os_eojin.Process.{Kernel, ProcessState, max_processes, say, create_user_process}
use os_eojin.Process.Frame.{Holds, frame_words}
use os_eojin.Process.Start.{Started, create_user_process-Started}
use os_eojin.Exec.Flat.{flat}
use os_eojin.Exec.{flat_binary_vaddr, with_machine, start, after_flat}

-- How `k'` differs from `k`: a new process, with the file's bytes in its address space.
pub record Running (load_addr size : ℕ) (k k' : Kernel) : Type 0 where
  pub root : ℕ
  pub user_rsp : ℕ
  pub count : k'.process_count ≡ k.process_count + 1
  pub can_run : (k'.processes k.process_count).state ≡ ProcessState.ready
  pub space : (k'.processes k.process_count).pml4 ≡ root * 4096
  -- it starts in ring 3 at 256MB
  pub frame :
      Holds
        (k'.processes k.process_count).rsp
        k'.machine.mem
        (frame_words 0x1b user_rsp 0x23 flat_binary_vaddr)
  pub pages :
      (i : ℕ)
      → i < size
      → (p : ℕ) × (walk 4 root (flat_binary_vaddr + i) k'.machine.mem ≡ some p)
        × (k'.machine.mem (p * 4096 + (flat_binary_vaddr + i) % 4096)
            ≡ k.machine.mem (load_addr + i))
  pub others : (j : ℕ) → j ≢ k.process_count → k'.processes j ≡ k.processes j

pub AllUsed-said : (message : List ℕ) (m : Machine) → AllUsed m → AllUsed (kprint message m)
unfolding used
AllUsed-said message m all = all

module _ (load_addr size : ℕ) (k : Kernel) (some' : 0 < size) (small : size < 2 ^ 32)
    (near : load_addr + size < 2 ^ 64) (room : k.process_count < max_processes) where
  -- The process is started at the pages that were loaded, in an address space `c`.
  module _ (level : ℕ → ℕ) (m m' : Machine) (c : ℕ) (four : level c ≡ 4)
      (loaded : Loaded load_addr
        (flat size)
        c
        level
        m
        (flat_binary_vaddr + 0)
        (end_vaddr (flat size))
        true
        m')
      (file : (i : ℕ) → i < size → m.mem (load_addr + i) ≡ k.machine.mem (load_addr + i)) where
    abbrev before : Kernel
    before = with_machine m' k

    abbrev done : Kernel
    done = create_user_process flat_binary_vaddr (c * 4096) before

    AllUsed-Started :
        Started flat_binary_vaddr (c * 4096) before done → AllUsed m' → AllUsed done.machine
    AllUsed-Started st all = λ j less. st.busy j (all j (omega (arith, less, st.size)))

    pages-Started :
        Started flat_binary_vaddr (c * 4096) before done
        → ((x : ℕ)
            → flat_binary_vaddr + 0 ≤ x
            → x < end_vaddr (flat size)
            → (p : ℕ) × (walk 4 c x m'.mem ≡ some p)
              × (loaded.level' p ≡ 0)
              × (used m' p ≡ true)
              × (m'.mem (p * 4096 + x % 4096) ≡ byte_at load_addr (flat size) m.mem x))
        → (i : ℕ) → i < size
        → (p : ℕ) × (walk 4 c (flat_binary_vaddr + i) done.machine.mem ≡ some p)
          × (done.machine.mem (p * 4096 + (flat_binary_vaddr + i) % 4096)
              ≡ k.machine.mem (load_addr + i))
    pages-Started st bytes i less =
        let x = flat_binary_vaddr + i in
        let (p, there, plain, use', byte) = bytes x (omega arith) (omega (arith, less)) in
        (
          p,
          walk-aside loaded.level' m' done.machine.mem loaded.tree
                (λ a pos. st.kept a (loaded.tree.taken (a / 4096) pos)) 4 c x
                (loaded.extends c (omega (arith, four)) ∙ four)
              ∙ there,
          st.kept (p * 4096 + x % 4096) (subst (λ q. used m' q ≡ true) (omega arith) use')
              ∙ byte
              ∙ (let in_file : (leb flat_binary_vaddr x && ltb x (flat_binary_vaddr + size))
                      ≡ true =
                    ground (arith, less) in
                  let at : load_addr + 0 + (x - flat_binary_vaddr) ≡ load_addr + i = omega arith in
                  rw (in_file, at) (file i less)),
        )

    Running-Started :
        Running load_addr size k (say (codes "Process Created.\n") done) ⊎ AllUsed done.machine
    Running-Started =
        elim (create_user_process-Started flat_binary_vaddr (c * 4096) before room (omega arith)
          loaded.tree.reserved loaded.tree.few) [
            | inr all ↦ inr all
            | inl st ↦ elim loaded.bytes [
              | inr all ↦ inr (AllUsed-Started st all)
              | inl bytes ↦ inl (record {
                root = c;
                user_rsp = st.user_rsp;
                count = st.created.count;
                can_run = st.created.can_run;
                space = st.space;
                frame = st.created.frame;
                pages = pages-Started st bytes;
                others = st.created.others;
              })
            ]
          ]

  -- How the loop ended.
  pub Running-after_flat :
      (level : ℕ → ℕ) (m m' : Machine) (c : ℕ) (ok : Bool)
      → level c ≡ 4
      → Loaded load_addr (flat size) c level m (flat_binary_vaddr + 0) (end_vaddr (flat size)) ok m'
      → ((i : ℕ) → i < size → m.mem (load_addr + i) ≡ k.machine.mem (load_addr + i))
      → (k' : Kernel) × (after_flat (c * 4096) (with_machine m k) (some (ok, m')) ≡ some k')
        × (Running load_addr size k k' ⊎ AllUsed k'.machine)
  unfolding used
  Running-after_flat level m m' c false four loaded file =
      (say (codes "exec: OOM for flat binary\n") (with_machine m' k), refl, inr (loaded.short refl))
  Running-after_flat level m m' c true four loaded file = (
    start flat_binary_vaddr (c * 4096) (with_machine m' k),
    refl,
    Running-Started level m m' c four loaded file,
  )
