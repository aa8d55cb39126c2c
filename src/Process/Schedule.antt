-- ===== src/Process/Schedule.antt =====
-- `schedule` of src/kernel/process/process.c: it always returns, takes the next ready process in
-- round-robin order, and keeps the table well formed.
use os_eojin.Base.{
  ℕ, ◌+◌, ◌≤◌, ◌<◌, ◌≡◌, ◌≢◌, refl, true, false, not, ◌==◌, ◌||◌, if◌then◌else◌, arith, inl, inr,
  some, Bool-cases, ==_iff, ◌∙◌, ap, subst, sym,
}
use os_eojin.Process.{
  Process, running, ready, Kernel, max_processes, is_ready, is_dead, is_running, save, fallback,
  switch_to, conclude, schedule_from, schedule,
}
use os_eojin.Process.Pick.{IsNext, pick-IsNext}

-- The table between two interrupts: a current process in it, and no other one running.
pub record IsValid (k : Kernel) (c : ℕ) : Type 0 where
  pub current : k.current_pid ≡ some c
  pub below : c < k.process_count
  pub capped : k.process_count ≤ max_processes
  pub alone : (j : ℕ) → is_running (k.processes j).state ≡ true → j ≡ c
  pub active : (is_running (k.processes c).state || is_dead (k.processes c).state) ≡ true

-- The table once the current process is saved.
abbrev pub saved : ℕ → ℕ → Kernel → ℕ → Process
saved rsp c k = save rsp c k.processes

-- Some process can run.
pub record HasReady (processes : ℕ → Process) (count : ℕ) : Type 0 where
  pub which : ℕ
  pub below : which < count
  pub can_run : is_ready (processes which).state ≡ true

-- Process `n` is switched to from process `c`, interrupted at stack pointer `rsp`.
pub record Switched (rsp c n : ℕ) (k : Kernel) (r : ℕ × Kernel) : Type 0 where
  pub current : r.1.current_pid ≡ some n
  pub resumes : r.0 ≡ (saved rsp c k n).rsp
  pub runs : r.1.processes n ≡ record (saved rsp c k n) { state = running }
  pub others : (j : ℕ) → j ≢ n → r.1.processes j ≡ saved rsp c k j
  pub space : r.1.cr3 ≡ (if (saved rsp c k n).pml4 == 0 then k.cr3 else (saved rsp c k n).pml4)
  pub stack : r.1.rsp0 ≡ (
      if (saved rsp c k n).kernel_stack_top == 0
      then k.rsp0
      else (saved rsp c k n).kernel_stack_top)
  pub count : r.1.process_count ≡ k.process_count
  -- what is saved: the interrupted process, unless it is dead
  pub stored : saved rsp c k c ≡ (
      if is_dead (k.processes c).state then k.processes c else record (k.processes c) {
        rsp = rsp;
        state = if is_running (k.processes c).state then ready else (k.processes c).state;
      })
  pub unsaved : (j : ℕ) → j ≢ c → saved rsp c k j ≡ k.processes j

Switched-switch_to :
    (rsp c n : ℕ) (k : Kernel)
    → Switched rsp c n k (switch_to n (record k { processes = saved rsp c k }))
unfolding switch_to save
Switched-switch_to rsp c n k = record {
  current = refl;
  resumes = refl;
  runs = ground arith;
  others = λ j ne. ground arith;
  space = refl;
  stack = refl;
  count = refl;
  stored = ground arith;
  unsaved = λ j ne. ground arith;
}

module _ (rsp c : ℕ) (k : Kernel) (v : IsValid k c) where
  -- What the search finds, and the switch to what `fallback` makes of it.
  search :
      (n : ℕ) × IsNext k.process_count c (saved rsp c k) c n
      × (schedule_from c rsp k
          ≡ switch_to (fallback c (saved rsp c k) n) (record k { processes = saved rsp c k }))
  unfolding schedule_from
  search =
      let (n, e, next) =
        pick-IsNext (max_processes + 1) k.process_count c (saved rsp c k) c v.below v.below
          (ground (arith, v.below, v.capped)) in
      (n, next, ap (conclude c rsp (record k { processes = saved rsp c k })) e)

  -- If any process can run, the search ends at one that can.
  IsNext-ready :
      (n : ℕ)
      → IsNext k.process_count c (saved rsp c k) c n
      → HasReady (saved rsp c k) k.process_count
      → is_ready (saved rsp c k n).state ≡ true
  IsNext-ready n next h = elim (Bool-cases (is_ready (saved rsp c k n).state)) [
    | inl yes_ready ↦ yes_ready
    | inr not_ready ↦
        let round : n ≡ c = ground (arith, next.fits) in
        elim (Bool-cases (h.which == c)) [
          | inl self ↦ ground (arith, h.can_run)
          | inr other ↦ ground (arith, h.can_run, h.below, next.passed h.which)
        ]
  ]

  pub saved_ne : (j : ℕ) → j ≢ c → saved rsp c k j ≡ k.processes j
  unfolding save
  saved_ne j ne = ground arith

  -- Saving leaves no process running.
  not-running-saved : (j : ℕ) → is_running (saved rsp c k j).state ≡ false
  unfolding save
  not-running-saved j = ground (arith, v.alone j, v.active)

  -- The table after a switch.
  Switched-IsValid :
      (n : ℕ)
      → n < k.process_count
      → Switched rsp c n k (schedule_from c rsp k)
      → IsValid (schedule_from c rsp k).1 n
  Switched-IsValid n h sw = record {
    current = sw.current;
    below = omega (arith, sw.count);
    capped = omega (arith, sw.count, v.capped);
    alone = λ j running_j. elim (Bool-cases (j == n)) [
      | inl same ↦ (==_iff j n).0 same
      | inr other ↦ ground (arith, running_j, sw.others j, not-running-saved j)
    ];
    active = ground (arith, sw.runs);
  }

fallback_keeps :
    (c n : ℕ) (processes : ℕ → Process)
    → (is_ready (processes n).state
        || not (is_ready (processes 0).state || is_running (processes 0).state))
      ≡ true
    → fallback c processes n ≡ n
unfolding fallback
fallback_keeps c n processes h = ground arith

Switched-schedule_from :
    (rsp c m n : ℕ) (k : Kernel)
    → schedule_from c rsp k ≡ switch_to m (record k { processes = saved rsp c k })
    → m ≡ n
    → Switched rsp c n k (schedule_from c rsp k)
Switched-schedule_from rsp c m n k e same =
    subst (Switched rsp c n k)
      (sym (e ∙ ap (λ i. switch_to i (record k { processes = saved rsp c k })) same))
      (Switched-switch_to rsp c n k)

-- A timer interrupt, or the end of a process, at a well-formed table in which some process can run:
-- `schedule` switches to the first ready process after the current one, saves the interrupted stack
-- pointer in the current one unless that is dead, resumes at the one that the next process holds then,
-- loads its address space and kernel stack if it has them, changes no other process, and leaves a well-formed table with that process as the current one.
pub schedule_lem :
    (rsp c : ℕ) (k : Kernel)
    → IsValid k c
    → HasReady (saved rsp c k) k.process_count
    → (schedule rsp k ≡ some (schedule_from c rsp k))
      × ((n : ℕ) × (is_ready (saved rsp c k n).state ≡ true)
          × IsNext k.process_count c (saved rsp c k) c n
          × Switched rsp c n k (schedule_from c rsp k)
          × IsValid (schedule_from c rsp k).1 n)
unfolding schedule
schedule_lem rsp c k v h =
    let (n, next, e) = search rsp c k v in
    let can_run = IsNext-ready rsp c k v n next h in
    let same = fallback_keeps c n (saved rsp c k) (ground (arith, can_run)) in
    let sw : Switched rsp c n k (schedule_from c rsp k) =
      Switched-schedule_from rsp c _ n k e same in
    (rw v.current, (n, can_run, next, sw, Switched-IsValid rsp c k v n next.below sw))

-- With no process ready the current one is dead, and `schedule` resumes it: the fallback to process
-- 0 never applies.
pub schedule_none_ready :
    (rsp c : ℕ) (k : Kernel)
    → IsValid k c
    → ((j : ℕ) → j < k.process_count → is_ready (saved rsp c k j).state ≡ false)
    → (is_dead (k.processes c).state ≡ true)
      × ((schedule_from c rsp k).0 ≡ (k.processes c).rsp)
      × ((schedule_from c rsp k).1.current_pid ≡ some c)
      × (is_running ((schedule_from c rsp k).1.processes c).state ≡ true)
unfolding save
schedule_none_ready rsp c k v none_ready =
    let (n, next, e) = search rsp c k v in
    let round : n ≡ c = ground (arith, next.fits, next.below, none_ready n) in
    let low : 0 < k.process_count = omega (arith, v.below) in
    let same =
      fallback_keeps c n (saved rsp c k)
        (ground (arith, none_ready 0, low, not-running-saved rsp c k v 0)) in
    let sw = Switched-schedule_from rsp c _ c k e (same ∙ round) in
    let is_over : is_dead (k.processes c).state ≡ true =
      ground (arith, none_ready c, v.below, v.active) in
    (is_over, ground (arith, sw.resumes), sw.current, ground (arith, sw.runs))
