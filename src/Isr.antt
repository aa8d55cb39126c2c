-- ===== src/Isr.antt =====
-- src/kernel/isr.c: the dispatch of interrupts and system calls. `hlt` waits for the next interrupt and changes nothing here.
pub mod Dispatch
mod Tests
use os_eojin.Base.{
  ℕ, zero, suc, ◌+◌, ◌*◌, ◌/◌, ◌%◌, ◌^◌, Option, none, some, List, [], ◌∷◌, ◌++◌, ◌==◌,
  if◌then◌else◌, codes,
}
use os_eojin.Machine.{kprint, read64}
use os_eojin.Utils.{hex_to_ascii}
use os_eojin.Process.{Kernel, say, schedule, kill_current_process}
use os_eojin.Keyboard.{Keyboard, Effect, keyboard_handler}
use os_eojin.Devices.{Writes, timer_handler}

pub record System : Type 0 where
  pub kernel : Kernel
  pub tick : ℕ
  pub ports : Writes
  pub keyboard : Keyboard
  -- what the keyboard handler left to the screen and the shell, in order
  pub effects : List Effect

-- The fields of `registers_t`, which lies on the stack at `r`.
abbrev pub field : ℕ → ℕ → System → ℕ
field offset r s = read64 (r + offset) s.kernel.machine.mem

abbrev pub rax : ℕ → System → ℕ
rax = field 8

abbrev pub rbx : ℕ → System → ℕ
rbx = field 16

abbrev pub int_no : ℕ → System → ℕ
int_no = field 128

abbrev pub err_code : ℕ → System → ℕ
err_code = field 136

abbrev pub rip : ℕ → System → ℕ
rip = field 144

abbrev pub outb : ℕ → ℕ → System → System
outb port data' s = record s { ports = s.ports ++ ((port, data') ∷ []) }

abbrev pub tell : List ℕ → System → System
tell message s = record s { kernel = say message s.kernel }

-- A character before the rest of a string.
abbrev pub with_char : ℕ → Option (List ℕ) → Option (List ℕ)
with_char c none = none
with_char c (some s) = some (c ∷ s)

-- The C string at `a`; `none` without fuel for its end.
unfoldable pub c_string : ℕ → ℕ → (ℕ → ℕ) → Option (List ℕ)
c_string zero a mem = none
c_string (suc fuel) a mem =
    let rest = c_string fuel (a + 1) mem in if mem a == 0 then some [] else with_char (mem a) rest

-- `next_rsp` stays `r`.
abbrev pub resume : ℕ → System → Option (ℕ × System)
resume r s = some (r, s)

abbrev pub resume_with : System → Option (ℕ × Kernel) → Option (ℕ × System)
resume_with s none = none
resume_with s (some (next_rsp, k)) = some (next_rsp, record s { kernel = k })

-- `next_rsp = schedule((uint64_t)r)`
abbrev pub reschedule : ℕ → System → Option (ℕ × System)
reschedule r s = resume_with s (schedule r s.kernel)

abbrev pub timer_irq : ℕ → System → Option (ℕ × System)
timer_irq r s = reschedule r (outb 0x20 0x20 (record s { tick = timer_handler s.tick }))

-- `scancode` is what port 0x60 reads.
abbrev pub keyboard_irq : (scancode : ℕ) → ℕ → System → Option (ℕ × System)
keyboard_irq scancode r s =
    let (effect, keyboard) = keyboard_handler scancode s.keyboard in
    resume r
      (outb 0x20 0x20 (record s { keyboard = keyboard; effects = s.effects ++ (effect ∷ []) }))

abbrev pub gp_fault : ℕ → System → Option (ℕ × System)
gp_fault r s =
    let at =
      tell (hex_to_ascii (rip r s))
        (tell (codes "RIP: ") (tell (codes "GP Fault! Halting.\n") s)) in
    resume r (tell (codes "\n") (tell (hex_to_ascii (err_code r s)) (tell (codes "  Err: ") at)))

abbrev pub page_fault : (cr2 : ℕ) → ℕ → System → Option (ℕ × System)
page_fault cr2 r s = resume r (
    tell (codes "\n")
      (tell (hex_to_ascii cr2) (tell (codes "CR2: ") (tell (codes "Page Fault! Halting.\n") s))))

abbrev pub print_string : ℕ → System → Option (List ℕ) → Option (ℕ × System)
print_string r s none = none
print_string r s (some message) = resume r (tell message s)

-- `path` is what `fat_get_current_path` returns.
abbrev pub system_call : (fuel : ℕ) (path : List ℕ) → ℕ → System → Option (ℕ × System)
system_call fuel path r s =
    if rax r s == 0
    then reschedule r (record s { kernel = kill_current_process path s.kernel })
    else if rax r s == 1
    then print_string r s (c_string fuel (rbx r s) s.kernel.machine.mem)
    else resume r s

-- `none` is a message without end, or the scheduler without a current process.
unfoldable pub isr_handler :
    (fuel cr2 scancode : ℕ) (path : List ℕ) → ℕ → System → Option (ℕ × System)
isr_handler fuel cr2 scancode path r s =
    let n = int_no r s in
    if n == 32
    then timer_irq r s
    else if n == 33
    then keyboard_irq scancode r s
    else if n == 0
    then resume r (tell (codes "Divide by Zero!\n") s)
    else if n == 8
    then resume r (tell (codes "Double Fault! Halting.\n") s)
    else if n == 13
    then gp_fault r s
    else if n == 14
    then page_fault cr2 r s
    else if n == 128
    then system_call fuel path r s
    else resume r s
