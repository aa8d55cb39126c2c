-- ===== src/Isr/Tests.antt =====
-- The theorems about src/kernel/isr.c with two processes, at a frame at address 0.
use os_eojin.Base.{
  ℕ, ◌+◌, ◌%◌, ◌^◌, ◌≡◌, ◌≢◌, refl, true, false, some, [], ◌∷◌, ◌++◌, ◌==◌, if◌then◌else◌, arith,
}
use os_eojin.Machine.{load}
use os_eojin.Process.{Kernel, Process, dead, ready, running, is_running, kill_current_process, save}
use os_eojin.Process.Schedule.{IsValid, HasReady, saved}
use os_eojin.Isr.{System, int_no, rax, isr_handler}
use os_eojin.Isr.Dispatch.{SwitchesTo, isr_handler-SwitchesTo, isr_handler-exit}

abbrev table : ℕ → Process
table j = record {
  rsp = 1000 + j;
  pid = j;
  state = if j == 0 then running else ready;
  stack_base = 0;
  kernel_stack_base = 0;
  kernel_stack_top = 4096;
  pml4 = 8192;
}

-- The interrupt number stands at 128, and RAX is 0.
abbrev system : ℕ → System
system number = record {
  kernel = record {
    machine = record {
      mem = λ a. if a == 128 then number else 0;
      bitmap = λ i. 0;
      total_blocks = 0;
      bitmap_size = 0;
      console = [];
    };
    processes = table;
    current_pid = some 0;
    process_count = 2;
    kernel_pml4 = 4096;
    cr3 = 4096;
    rsp0 = 0;
  };
  tick = 7;
  ports = [];
  keyboard = record { is_shift = false; key_buffer = λ i. 0; buffer_index = 0 };
  effects = [];
}

first_runs : (j : ℕ) → is_running (table j).state ≡ true → j ≡ 0
first_runs j h = ground arith

system-IsValid : (number : ℕ) → IsValid (system number).kernel 0
system-IsValid number = record {
  current = refl;
  below = omega arith;
  capped = omega arith;
  alone = first_runs;
  active = refl;
}

timer_number : int_no 0 (system 32) ≡ 32
unfolding load
timer_number = refl

call_number : int_no 0 (system 128) ≡ 128
unfolding load
call_number = refl

exit_number : rax 0 (system 128) ≡ 0
unfolding load
exit_number = refl

other_ready : HasReady (saved 0 0 (system 32).kernel) 2
unfolding save
other_ready = record { which = 1; below = omega arith; can_run = refl }

isr_handler-SwitchesTo_example :
    (n next_rsp : ℕ) × (k' : Kernel) × (isr_handler 0 0 0 [] 0 (system 32)
      ≡ some (
        next_rsp,
        record (system 32) {
          kernel = k';
          tick = (7 + 1) % 2 ^ 32;
          ports = [] ++ ((0x20, 0x20) ∷ []);
        },
      ))
    × SwitchesTo 0 0 n (system 32).kernel next_rsp k'
isr_handler-SwitchesTo_example =
    isr_handler-SwitchesTo 0 0 0 [] 0 0 (system 32) timer_number (system-IsValid 32) other_ready

isr_handler-exit_example :
    (n next_rsp : ℕ) × (k' : Kernel) × (isr_handler 0 0 0 [] 0 (system 128)
      ≡ some (next_rsp, record (system 128) { kernel = k' }))
    × SwitchesTo 0 0 n (kill_current_process [] (system 128).kernel) next_rsp k'
    × (n ≢ 0)
    × ((k'.processes 0).state ≡ dead)
isr_handler-exit_example =
    isr_handler-exit 0 0 0 [] 0 0 1 (system 128) call_number exit_number (system-IsValid 128)
      (omega arith) (omega arith) refl
