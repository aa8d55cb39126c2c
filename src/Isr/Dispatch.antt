-- ===== src/Isr/Dispatch.antt =====
-- How an interrupt in src/kernel/isr.c ends: by a return to the process, or by a switch to another.
use os_eojin.Base.{
  ℕ, ◌+◌, ◌%◌, ◌^◌, ◌<◌, ◌≡◌, ◌≢◌, refl, true, false, some, List, [], ◌∷◌, ◌++◌, ◌==◌, arith,
  Bool-cases, inl, inr, ◌∙◌, ap, sym, ==_ne, ==_refl, ==_iff,
}
use os_eojin.Process.{
  Kernel, dead, is_ready, is_running, schedule_from, kill, kill_current_process, save, put,
}
use os_eojin.Process.Pick.{IsNext}
use os_eojin.Process.Schedule.{IsValid, HasReady, Switched, saved, schedule_lem}
use os_eojin.Devices.{timer_handler}
use os_eojin.Isr.{System, int_no, rax, outb, isr_handler, reschedule, resume_with}

-- A switch to the process that is next after process `c`.
pub record SwitchesTo (r c n : ℕ) (k : Kernel) (next_rsp : ℕ) (k' : Kernel) : Type 0 where
  pub next : IsNext k.process_count c (saved r c k) c n
  pub can_run : is_ready (saved r c k n).state ≡ true
  pub switched : Switched r c n k (next_rsp, k')
  pub valid : IsValid k' n

reschedule_lem :
    (r c : ℕ) (s : System)
    → IsValid s.kernel c
    → HasReady (saved r c s.kernel) s.kernel.process_count
    → (n next_rsp : ℕ) × (k' : Kernel) × (reschedule r s
        ≡ some (next_rsp, record s { kernel = k' }))
      × SwitchesTo r c n s.kernel next_rsp k'
reschedule_lem r c s valid ready' =
    let (e, (n, can_run, next, switched, valid')) = schedule_lem r c s.kernel valid ready' in
    (
      n,
      (schedule_from c r s.kernel).0,
      (schedule_from c r s.kernel).1,
      ap (resume_with s) e,
      record { next = next; can_run = can_run; switched = switched; valid = valid' },
    )

-- A timer interrupt (number 32) at a well-formed process table in which some process can run: `isr_handler` counts
-- one tick, acknowledges the interrupt, and switches to the first ready process after the current one;
-- the table stays well formed.
pub isr_handler-SwitchesTo :
    (fuel cr2 scancode : ℕ) (path : List ℕ) (r c : ℕ) (s : System)
    → int_no r s ≡ 32
    → IsValid s.kernel c
    → HasReady (saved r c s.kernel) s.kernel.process_count
    → (n next_rsp : ℕ) × (k' : Kernel) × (isr_handler fuel cr2 scancode path r s
        ≡ some (
          next_rsp,
          record s {
            kernel = k';
            tick = (s.tick + 1) % 2 ^ 32;
            ports = s.ports ++ ((0x20, 0x20) ∷ []);
          },
        ))
      × SwitchesTo r c n s.kernel next_rsp k'
unfolding isr_handler
isr_handler-SwitchesTo fuel cr2 scancode path r c s timer valid ready' =
    let (n, next_rsp, k', e, switches) =
      reschedule_lem r c (outb 0x20 0x20 (record s { tick = timer_handler s.tick })) valid ready' in
    (n, next_rsp, k', rw timer e, switches)

-- The kernel after `kill_current_process` with process `c` current.
module _ (path : List ℕ) (r c : ℕ) (k : Kernel) (valid : IsValid k c) where
  abbrev killed : Kernel
  killed = kill_current_process path k

  killed-processes :
      (j : ℕ) → killed.processes j ≡ put c (record (k.processes c) { state = dead }) k.processes j
  unfolding kill_current_process kill
  killed-processes j = rw valid.current refl

  killed-dead : (killed.processes c).state ≡ dead
  killed-dead = ap (λ p. p.state) (killed-processes c) ∙ rw (==_refl c) refl

  killed-other : (j : ℕ) → j ≢ c → killed.processes j ≡ k.processes j
  killed-other j ne = killed-processes j ∙ rw (==_ne c j (λ e. ne (sym e))) refl

  killed-count : (killed.process_count ≡ k.process_count) × (killed.current_pid ≡ some c)
  unfolding kill_current_process kill
  killed-count = (rw valid.current refl, rw valid.current refl)

  killed-saved : (j : ℕ) → saved r c killed j ≡ killed.processes j
  unfolding save
  killed-saved j = rw killed-dead refl

  killed-IsValid : IsValid killed c
  killed-IsValid = record {
    current = killed-count.1;
    below = omega (arith, killed-count.0, valid.below);
    capped = omega (arith, killed-count.0, valid.capped);
    alone = λ j runs. elim (Bool-cases (j == c)) [
      | inl same ↦ (==_iff j c).0 same
      | inr other ↦ valid.alone j (
          ap (λ p. is_running p.state) (sym (killed-other j (λ e. absurd (ground (arith, other)))))
          ∙ runs)
    ];
    active = rw killed-dead refl;
  }

  killed-HasReady :
      (j : ℕ)
      → j < k.process_count
      → j ≢ c
      → is_ready (k.processes j).state ≡ true
      → HasReady (saved r c killed) killed.process_count
  killed-HasReady j below ne can_run = record {
    which = j;
    below = omega (arith, killed-count.0);
    can_run = ap (λ p. is_ready p.state) (killed-saved j ∙ killed-other j ne) ∙ can_run;
  }

-- The system call exit (number 128, RAX 0) at a well-formed process table with process `c` current and another
-- process ready: `isr_handler` marks `c` as dead and switches to the first ready process after it, which
-- is another one; the table stays well formed, and `c` stays dead.
pub isr_handler-exit :
    (fuel cr2 scancode : ℕ) (path : List ℕ) (r c j : ℕ) (s : System)
    → int_no r s ≡ 128
    → rax r s ≡ 0
    → IsValid s.kernel c
    → j < s.kernel.process_count
    → j ≢ c
    → is_ready (s.kernel.processes j).state ≡ true
    → (n next_rsp : ℕ) × (k' : Kernel) × (isr_handler fuel cr2 scancode path r s
        ≡ some (next_rsp, record s { kernel = k' }))
      × SwitchesTo r c n (kill_current_process path s.kernel) next_rsp k'
      × (n ≢ c)
      × ((k'.processes c).state ≡ dead)
unfolding isr_handler
isr_handler-exit fuel cr2 scancode path r c j s call exit valid below ne can_run =
    let k = kill_current_process path s.kernel in
    let (n, next_rsp, k', e, switches) =
      reschedule_lem r c (record s { kernel = k }) (killed-IsValid path r c s.kernel valid)
        (killed-HasReady path r c s.kernel valid j below ne can_run) in
    let gone : (saved r c k c).state ≡ dead =
      ap (λ p. p.state) (killed-saved path r c s.kernel valid c)
      ∙ killed-dead path r c s.kernel valid in
    let other : n ≢ c = λ same.
      let not_ready : false ≡ true =
        sym (ap is_ready gone)
        ∙ sym (ap (λ i. is_ready (saved r c k i).state) same)
        ∙ switches.can_run in
      absurd (ground (arith, not_ready)) in
    (
      n,
      next_rsp,
      k',
      rw (call, exit) e,
      switches,
      other,
      ap (λ p. p.state) (switches.switched.others c (λ h. other (sym h))) ∙ gone,
    )
