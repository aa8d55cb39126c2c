-- ===== src/Process/Table.antt =====
-- The operations of src/kernel/process/process.c that change the process table keep it well formed.
use os_eojin.Base.{
  ℕ, zero, suc, ◌+◌, ◌≤◌, ◌<◌, ◌≡◌, ◌≢◌, refl, true, false, ◌==◌, leb, ltb, ◌&&◌, arith, inl, inr,
  List, ◌^◌, ==_iff, ==_ne, Bool-cases, subst, sym, ap,
}
use os_eojin.Machine.{Machine}
use os_eojin.Pmm.{pmm_alloc_block}
use os_eojin.Process.{
  Process, ready, waiting, dead, Kernel, max_processes, is_running, wait_all, init_multitasking,
  finish_process, abandon, create_kernel_process, create_user_process, kill, kill_current_process,
  put, stack_size,
}
use os_eojin.Process.Schedule.{IsValid}
use os_eojin.Process.Frame.{Holds, frame_words, push_frame_lem}

wait_all-state :
    (n i j : ℕ) (processes : ℕ → Process)
    → is_running (wait_all n i processes j).state ≡ true
    → (is_running (processes j).state ≡ true) × ((leb i j && ltb j (i + n)) ≡ false)
unfolding wait_all
wait_all-state zero i j processes h = ground arith
wait_all-state (suc n) i j processes h = ground (
  arith,
  wait_all-state n (i + 1) j (put i (record (processes i) { state = waiting }) processes) h,
)

-- After `init_multitasking` process 0 is the current and only one, if no entry behind the table is
-- taken for a running process.
pub init_multitasking-IsValid :
    (k : Kernel)
    → ((j : ℕ) → max_processes ≤ j → is_running (k.processes j).state ≡ false)
    → IsValid (init_multitasking k) 0
unfolding init_multitasking
init_multitasking-IsValid k beyond = record {
  current = refl;
  below = omega arith;
  capped = omega arith;
  alone = λ j h. elim (Bool-cases (j == 0)) [
    | inl first ↦ (==_iff j 0).0 first
    | inr other ↦ ground (arith, wait_all-state max_processes 0 j k.processes, beyond j)
  ];
  active = refl;
}

-- The end of a process keeps the table well formed, and the ended process is dead.
pub kill_current_process-IsValid :
    (path : List ℕ) (k : Kernel) (c : ℕ)
    → IsValid k c
    → IsValid (kill_current_process path k) c
      × (((kill_current_process path k).processes c).state ≡ dead)
unfolding kill_current_process
kill_current_process-IsValid path k c v =
    subst (λ k'. IsValid k' c × ((k'.processes c).state ≡ dead)) (sym (ap (kill path k) v.current))
      (
        record {
          current = v.current;
          below = v.below;
          capped = v.capped;
          alone = λ j h. ground (arith, v.alone j);
          active = ground arith;
        },
        ground arith,
      )

-- What a successful creation adds: entry `process_count`, ready, on a kernel stack of its own whose
-- top holds the first frame, at which `schedule` will resume it.
pub record Created (k : Kernel) (ss user_rsp cs entry : ℕ) (k' : Kernel) : Type 0 where
  pub count : k'.process_count ≡ k.process_count + 1
  pub pid : (k'.processes k.process_count).pid ≡ k.process_count
  pub can_run : (k'.processes k.process_count).state ≡ ready
  pub frame :
      Holds (k'.processes k.process_count).rsp k'.machine.mem (frame_words ss user_rsp cs entry)
  pub in_stack :
      (k'.processes k.process_count).rsp + 184 ≡ (k'.processes k.process_count).kernel_stack_top
  pub others : (j : ℕ) → j ≢ k.process_count → k'.processes j ≡ k.processes j
  pub same_current : k'.current_pid ≡ k.current_pid

finish_process-Created :
    (p : Process) (m : Machine) (k : Kernel) (message : List ℕ) (ss user_rsp cs entry : ℕ)
    → p.pid ≡ k.process_count
    → p.state ≡ ready
    → Holds p.rsp m.mem (frame_words ss user_rsp cs entry)
    → p.rsp + 184 ≡ p.kernel_stack_top
    → Created k ss user_rsp cs entry (finish_process p m k message)
unfolding finish_process
finish_process-Created p m k message ss user_rsp cs entry hp hs hf ht =
    let here : put k.process_count p k.processes k.process_count ≡ p = ground arith in
    record {
      count = refl;
      pid = rw here hp;
      can_run = rw here hs;
      frame = rw here hf;
      in_stack = rw here ht;
      others = λ j ne. ground arith;
      same_current = refl;
    }

-- With room in the table and two free blocks `create_user_process` adds a ready process that starts
-- in ring 3 at its entry point, on a user stack of one block.
pub create_user_process-Created :
    (entry pml4 : ℕ) (k : Kernel)
    → k.process_count < max_processes
    → entry < 2 ^ 64
    → let (user_stack, m1) = pmm_alloc_block k.machine in
      let (kernel_stack, m2) = pmm_alloc_block m1 in
      user_stack ≢ 0
      → kernel_stack ≢ 0
      → user_stack + stack_size < 2 ^ 64
      → Created k 0x1b (user_stack + stack_size) 0x23 entry (create_user_process entry pml4 k)
unfolding create_user_process
create_user_process-Created entry pml4 k room small user kernel fits =
    let (user_stack, m1) = pmm_alloc_block k.machine in
    let (kernel_stack, m2) = pmm_alloc_block m1 in
    let (deep, held, _) =
      push_frame_lem 0x1b (user_stack + stack_size) 0x23 entry (kernel_stack + stack_size) m2.mem
        (omega arith) fits (omega arith) small (omega arith) in
    let free : leb max_processes k.process_count ≡ false = ground arith in
    rw (free, ==_ne user_stack 0 user, ==_ne kernel_stack 0 kernel)
      (finish_process-Created _ _ k _ 0x1b (user_stack + stack_size) 0x23 entry refl refl held deep)

-- With room in the table `create_kernel_process` adds a ready process that starts in ring 0 at its
-- entry point, on the one stack that it has.
pub create_kernel_process-Created :
    (entry : ℕ) (k : Kernel)
    → k.process_count < max_processes
    → entry < 2 ^ 64
    → (pmm_alloc_block k.machine).0 + stack_size < 2 ^ 64
    → Created k 0x10
        ((pmm_alloc_block k.machine).0 + stack_size)
        0x08
        entry
        (create_kernel_process entry k)
unfolding create_kernel_process
create_kernel_process-Created entry k room small fits =
    let (stack, m) = pmm_alloc_block k.machine in
    let (deep, held, _) =
      push_frame_lem 0x10 (stack + stack_size) 0x08 entry (stack + stack_size) m.mem (omega arith)
        fits (omega arith) small (omega arith) in
    let free : leb max_processes k.process_count ≡ false = ground arith in
    rw free
      (finish_process-Created _ _ k _ 0x10 (stack + stack_size) 0x08 entry refl refl held deep)

module _ (p : Process) (m : Machine) (k : Kernel) (message : List ℕ) (c : ℕ) (v : IsValid k c) where
  finish_process-IsValid :
      k.process_count < max_processes → p.state ≡ ready → IsValid (finish_process p m k message) c
  unfolding finish_process
  finish_process-IsValid room hs = record {
    current = v.current;
    below = omega (arith, v.below);
    capped = omega arith;
    alone = λ j h. ground (arith, v.alone j);
    active = ground (arith, v.below, v.active);
  }

  abandon-IsValid : p.state ≡ ready → IsValid (abandon p m message k) c
  unfolding abandon
  abandon-IsValid hs = record {
    current = v.current;
    below = v.below;
    capped = v.capped;
    alone = λ j h. ground (arith, v.alone j);
    active = ground (arith, v.below, v.active);
  }

-- No branch of `create_user_process`, a full table and failed allocations included, breaks the table.
pub create_user_process-IsValid :
    (entry pml4 c : ℕ) (k : Kernel) → IsValid k c → IsValid (create_user_process entry pml4 k) c
unfolding create_user_process
create_user_process-IsValid entry pml4 c k v =
    let (user_stack, m1) = pmm_alloc_block k.machine in
    let (kernel_stack, m2) = pmm_alloc_block m1 in
    elim (Bool-cases (leb max_processes k.process_count)) [
      | inl full ↦ rw full (record {
        current = v.current;
        below = v.below;
        capped = v.capped;
        alone = v.alone;
        active = v.active;
      })
      | inr room ↦ elim (Bool-cases (user_stack == 0)) [
        | inl no_user ↦ rw (room, no_user) (abandon-IsValid _ _ k _ c v refl)
        | inr user ↦ elim (Bool-cases (kernel_stack == 0)) [
          | inl no_kernel ↦ rw (room, user, no_kernel) (abandon-IsValid _ _ k _ c v refl)
          | inr kernel ↦
              rw (room, user, kernel) (finish_process-IsValid _ _ k _ c v (ground arith) refl)
        ]
      ]
    ]
