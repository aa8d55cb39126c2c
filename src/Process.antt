-- ===== src/Process.antt =====
-- src/kernel/process/process.c: the process table, the first stack frame of a new process, and the
-- round-robin scheduler. `processes[i]` is a function of `i`, of which the code uses the first 16.
pub mod Frame
pub mod Pick
pub mod Schedule
pub mod Fair
pub mod Table
pub mod Start
mod Tests
use os_eojin.Base.{
  ℕ, zero, suc, ◌+◌, ◌-◌, Bool, true, false, not, ◌&&◌, ◌||◌, Option, none, some, List, [], ◌∷◌,
  ltb, leb, ◌==◌, if◌then◌else◌, codes,
}
use os_eojin.Utils.{hex_to_ascii}
use os_eojin.Machine.{Machine, kprint, write64}
use os_eojin.Pmm.{pmm_alloc_block}

pub data ProcessState : Type 0 where
  ready running waiting dead : ProcessState

-- `process_t`
pub record Process : Type 0 where
  pub rsp : ℕ
  pub pid : ℕ
  pub state : ProcessState
  pub stack_base : ℕ
  pub kernel_stack_base : ℕ
  pub kernel_stack_top : ℕ
  pub pml4 : ℕ

-- The globals of process.c, with those of vmm.c and gdt.c that the scheduler writes.
pub record Kernel : Type 0 where
  pub machine : Machine
  pub processes : ℕ → Process
  -- `none` is -1
  pub current_pid : Option ℕ
  pub process_count : ℕ
  pub kernel_pml4 : ℕ
  -- the CR3 register and `current_pml4`, which `vmm_switch_pml4` writes together
  pub cr3 : ℕ
  -- `tss_entry.rsp0`
  pub rsp0 : ℕ

abbrev pub max_processes : ℕ
max_processes = 16

abbrev pub stack_size : ℕ
stack_size = 4096

abbrev pub is_ready : ProcessState → Bool
is_ready ready = true
is_ready _ = false

abbrev pub is_running : ProcessState → Bool
is_running running = true
is_running _ = false

abbrev pub is_dead : ProcessState → Bool
is_dead dead = true
is_dead _ = false

-- `processes[i] = p`
abbrev pub put : ℕ → Process → (ℕ → Process) → ℕ → Process
put i p processes j = if i == j then p else processes j

abbrev pub say : List ℕ → Kernel → Kernel
say message k = record k { machine = kprint message k.machine }

-- The loop of `init_multitasking`, `n` rounds from `i` on.
unfoldable pub wait_all : ℕ → ℕ → (ℕ → Process) → ℕ → Process
wait_all zero i processes = processes
wait_all (suc n) i processes =
    wait_all n (i + 1) (put i (record (processes i) { state = waiting }) processes)

unfoldable pub init_multitasking : Kernel → Kernel
unfolding wait_all
init_multitasking k =
    let table = wait_all max_processes 0 k.processes in
    say (codes "Multitasking Initialized.\n") (record k {
      processes = put 0 (record (table 0) { pid = 0; state = running }) table;
      process_count = 1;
      current_pid = some 0;
    })

-- A stack pointer and the memory under it.
abbrev pub Stack : Type 0
Stack = ℕ × (ℕ → ℕ)

-- `rsp -= 8; *((uint64_t*)rsp) = v;`. No stack pointer here is below 8.
pub push : ℕ → Stack → Stack
push v (rsp, mem) = (rsp - 8, write64 (rsp - 8) v mem)

-- The loop that pushes zeros.
pub push_zeros : ℕ → Stack → Stack
push_zeros zero s = s
push_zeros (suc n) s = push_zeros n (push 0 s)

-- The frame that `iretq` and the interrupt exit pop: SS, RSP, RFLAGS, CS, RIP, error code, interrupt
-- number and 16 registers, from the top of the stack down.
pub push_frame : (ss rsp cs entry : ℕ) → Stack → Stack
unfolding push push_zeros
push_frame ss rsp cs entry s =
    push_zeros 16 (push 0 (push 0 (push entry (push cs (push 0x202 (push rsp (push ss s)))))))

-- `processes[process_count]` once both stacks are there, and the messages that follow.
pub finish_process : Process → Machine → Kernel → List ℕ → Kernel
finish_process p m k message =
    let made = record k {
      machine = m;
      processes = put k.process_count p k.processes;
      process_count = k.process_count + 1;
    } in
    say (codes "\n") (say (hex_to_ascii p.pid) (say message made))

pub create_kernel_process : ℕ → Kernel → Kernel
create_kernel_process entry k =
    let (stack, m) = pmm_alloc_block k.machine in
    let top = stack + stack_size in
    let (rsp, mem) = push_frame 0x10 top 0x08 entry (top, m.mem) in
    let p = record (k.processes k.process_count) {
      pid = k.process_count;
      state = ready;
      stack_base = stack;
      kernel_stack_base = stack;
      kernel_stack_top = top;
      pml4 = k.kernel_pml4;
      rsp = rsp;
    } in
    if leb max_processes k.process_count
    then say (codes "Max processes reached!\n") k
    else finish_process p (record m { mem = mem }) k (codes "Created Kernel Process PID ")

-- The two ways in which `create_user_process` gives up, with the table entry as far as it is filled.
pub abandon : Process → Machine → List ℕ → Kernel → Kernel
abandon p m message k =
    say message (record k { machine = m; processes = put k.process_count p k.processes })

pub create_user_process : ℕ → ℕ → Kernel → Kernel
create_user_process entry pml4_phys_addr k =
    let p0 = record (k.processes k.process_count) { pid = k.process_count; state = ready } in
    let (user_stack, m1) = pmm_alloc_block k.machine in
    let p1 = record p0 { stack_base = user_stack } in
    let user_rsp = user_stack + stack_size in
    let (kernel_stack, m2) = pmm_alloc_block m1 in
    let top = kernel_stack + stack_size in
    let (k_rsp, mem) = push_frame 0x1b user_rsp 0x23 entry (top, m2.mem) in
    let p2 = record p1 {
      kernel_stack_base = kernel_stack;
      kernel_stack_top = top;
      pml4 = pml4_phys_addr;
      rsp = k_rsp;
    } in
    if leb max_processes k.process_count
    then say (codes "Max processes reached!\n") k
    else if user_stack == 0
    then abandon p0 m1 (codes "Proc Alloc Fail: User Stack\n") k
    else if kernel_stack == 0
    then abandon p1 m2 (codes "Proc Alloc Fail: Kernel Stack\n") k
    else finish_process p2 (record m2 { mem = mem }) k (codes "Created User Process PID ")

-- `kill_current_process` by the value of `current_pid`; `path` is what `fat_get_current_path` returns.
unfoldable pub kill : List ℕ → Kernel → Option ℕ → Kernel
kill path k none = k
kill path k (some c) = say (codes "> ") (
    say path (
      say (codes "OS_eojin:") (
        say (codes "\n") (
          say (hex_to_ascii c) (
            say (codes "Process Killed PID: ") (record k {
              processes = put c (record (k.processes c) { state = dead }) k.processes;
            }))))))

unfoldable pub kill_current_process : List ℕ → Kernel → Kernel
unfolding kill
kill_current_process path k = kill path k k.current_pid

-- The first step of `schedule`: the context of process `c` is saved unless it is dead.
unfoldable pub save : ℕ → ℕ → (ℕ → Process) → ℕ → Process
save current_rsp c processes =
    let p = processes c in
    let kept = record p {
      rsp = current_rsp;
      state = if is_running p.state then ready else p.state;
    } in
    if is_dead p.state then processes else put c kept processes

-- The index after `next`, in a table of `count`.
abbrev pub advance : ℕ → ℕ → ℕ
advance count next = if leb count (next + 1) then 0 else next + 1

-- The `do` loop of `schedule` from `next`, `rounds` before `loop_count > MAX_PROCESSES + 1` ends it.
pub pick : (rounds count current : ℕ) → (ℕ → Process) → ℕ → Option ℕ
pick zero count current processes next = none
pick (suc rounds) count current processes next =
    let n = advance count next in
    let rest = pick rounds count current processes n in
    if not (is_ready (processes n).state) && not (n == current) then rest else some n

-- Back at a process that is not ready: process 0 instead, if it can run.
pub fallback : ℕ → (ℕ → Process) → ℕ → ℕ
fallback current processes next =
    if next == current
      && not (is_ready (processes next).state)
      && (is_ready (processes 0).state || is_running (processes 0).state)
    then 0
    else next

-- The switch to process `next`.
pub switch_to : ℕ → Kernel → ℕ × Kernel
switch_to next k =
    let p = record (k.processes next) { state = running } in
    (
      p.rsp,
      record k {
        current_pid = some next;
        processes = put next p k.processes;
        cr3 = if p.pml4 == 0 then k.cr3 else p.pml4;
        rsp0 = if p.kernel_stack_top == 0 then k.rsp0 else p.kernel_stack_top;
      },
    )

-- The end of `schedule`, with the outcome of its loop: `none` is the return from inside the loop.
pub conclude : ℕ → ℕ → Kernel → Option ℕ → ℕ × Kernel
unfolding fallback switch_to
conclude c current_rsp k none = (current_rsp, k)
conclude c current_rsp k (some next) = switch_to (fallback c k.processes next) k

-- `schedule` with process `c` current.
pub schedule_from : ℕ → ℕ → Kernel → ℕ × Kernel
unfolding save pick conclude
schedule_from c current_rsp k =
    let saved = record k { processes = save current_rsp c k.processes } in
    conclude c current_rsp saved (pick (max_processes + 1) k.process_count c saved.processes c)

-- `none` stands for the read of `processes[-1]`.
pub schedule : ℕ → Kernel → Option (ℕ × Kernel)
unfolding schedule_from
schedule current_rsp k = elim k.current_pid [
  | none ↦ none
  | some c ↦ some (schedule_from c current_rsp k)
]
