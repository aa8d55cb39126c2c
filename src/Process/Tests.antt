-- ===== src/Process/Tests.antt =====
-- The theorems about src/kernel/process/process.c at small tables.
use os_eojin.Base.{
  ◌+◌, ℕ, zero, suc, ◌-◌, ◌^◌, ◌≤◌, ◌≡◌, refl, true, some, [], ◌∷◌, arith, if◌then◌else◌, ltb, ◌==◌,
  take,
}
use os_eojin.Machine.{Machine}
use os_eojin.Pmm.{pmm_alloc_block, test_bit, set_bit}
use os_eojin.Process.{
  Process, ready, running, waiting, dead, Kernel, schedule, schedule_from, save, is_ready, is_dead,
  is_running, create_user_process, stack_size,
}
use os_eojin.Process.Pick.{IsNext}
use os_eojin.Process.Schedule.{
  IsValid, HasReady, Switched, saved, schedule_lem, schedule_none_ready,
}
use os_eojin.Process.Fair.{ticks, schedule_fair}
use os_eojin.Process.Table.{Created, create_user_process-Created, create_user_process-IsValid}

abbrev blank : Process
blank = record {
  rsp = 0;
  pid = 0;
  state = waiting;
  stack_base = 0;
  kernel_stack_base = 0;
  kernel_stack_top = 0;
  pml4 = 0;
}

-- 32MB reserved and eight blocks more.
abbrev machine : Machine
machine = record {
  mem = λ a. 0;
  bitmap = λ i. if ltb i 256 then 2 ^ 32 - 1 else 0;
  total_blocks = 8200;
  bitmap_size = 1025;
  console = [];
}

-- Process 0 runs, 1 is dead, 2 is ready.
abbrev table : ℕ → Process
table zero = record blank { state = running }
table (suc zero) = record blank { pid = 1; state = dead; rsp = 111 }
table (suc (suc zero)) = record blank {
  pid = 2;
  state = ready;
  rsp = 222;
  kernel_stack_top = 333;
  pml4 = 444;
}
table (suc (suc (suc j))) = blank

abbrev kernel : Kernel
kernel = record {
  machine = machine;
  processes = table;
  current_pid = some 0;
  process_count = 3;
  kernel_pml4 = 4096;
  cr3 = 4096;
  rsp0 = 0;
}

kernel_alone : (j : ℕ) → is_running (table j).state ≡ true → j ≡ 0
kernel_alone zero h = refl
kernel_alone (suc zero) h = cc
kernel_alone (suc (suc zero)) h = cc
kernel_alone (suc (suc (suc j))) h = cc

kernel-IsValid : IsValid kernel 0
kernel-IsValid = record {
  current = refl;
  below = omega arith;
  capped = omega arith;
  alone = kernel_alone;
  active = refl;
}

kernel-HasReady : HasReady (saved 777 0 kernel) 3
unfolding save
kernel-HasReady = record { which = 2; below = omega arith; can_run = refl }

-- The dead process is passed over, and process 2 resumes where it stopped.
schedule_resumes : (schedule_from 0 777 kernel).0 ≡ 222
unfolding schedule_from
schedule_resumes = refl

schedule_lem_example :
    (schedule 777 kernel ≡ some (schedule_from 0 777 kernel))
    × ((n : ℕ) × (is_ready (saved 777 0 kernel n).state ≡ true)
        × IsNext 3 0 (saved 777 0 kernel) 0 n
        × Switched 777 0 n kernel (schedule_from 0 777 kernel)
        × IsValid (schedule_from 0 777 kernel).1 n)
schedule_lem_example = schedule_lem 777 0 kernel kernel-IsValid kernel-HasReady

schedule_fair_example :
    (n : ℕ) × (n ≤ 3)
    × (k' : Kernel) × (ticks (take n (10 ∷ 20 ∷ 30 ∷ [])) kernel ≡ some k')
    × IsValid k' 2
schedule_fair_example =
    schedule_fair 0 2 kernel (10 ∷ 20 ∷ 30 ∷ []) kernel-IsValid (omega arith) (omega arith) refl
      (omega arith)

-- Only process 0, and dead.
abbrev lonely : Kernel
lonely = record kernel {
  processes = λ j. if j == 0 then record blank { state = dead; rsp = 555 } else blank;
  process_count = 1;
}

lonely-IsValid : IsValid lonely 0
lonely-IsValid = record {
  current = refl;
  below = omega arith;
  capped = omega arith;
  alone = λ j h. ground arith;
  active = refl;
}

schedule_none_ready_example :
    (is_dead (lonely.processes 0).state ≡ true)
    × ((schedule_from 0 777 lonely).0 ≡ 555)
    × ((schedule_from 0 777 lonely).1.current_pid ≡ some 0)
    × (is_running ((schedule_from 0 777 lonely).1.processes 0).state ≡ true)
unfolding save
schedule_none_ready_example = schedule_none_ready 777 0 lonely lonely-IsValid (λ j h. ground arith)

first_block : (pmm_alloc_block machine).0 ≡ 0x2000000
unfolding pmm_alloc_block test_bit
first_block = refl

second_block : (pmm_alloc_block (pmm_alloc_block machine).1).0 ≡ 0x2001000
unfolding pmm_alloc_block test_bit set_bit
second_block = refl

create_user_process-Created_example :
    Created kernel 0x1b
      ((pmm_alloc_block machine).0 + stack_size)
      0x23
      0x400000
      (create_user_process 0x400000 0x5000 kernel)
create_user_process-Created_example =
    create_user_process-Created 0x400000 0x5000 kernel (omega arith) (omega arith)
      (omega (arith, first_block)) (omega (arith, second_block)) (omega (arith, first_block))

create_user_process-IsValid_example : IsValid (create_user_process 0x400000 0x5000 kernel) 0
create_user_process-IsValid_example =
    create_user_process-IsValid 0x400000 0x5000 0 kernel kernel-IsValid
