-- ===== src/Boot.antt =====
-- `main` of src/kernel/kernel.c: the kernel's parts are set up one after the other. `set_idt`, `sti` and
-- `hlt` are instructions; the loop at the end waits for interrupts.
mod Tests
pub mod Ready
use os_eojin.Base.{ℕ, List, [], ◌∷◌, ◌++◌, codes, Option, none, some}
use os_eojin.Base.Int.{pos}
use os_eojin.Machine.{Machine, kprint}
use os_eojin.Screen.{Screen, kprint_at}
use os_eojin.Idt.{Gate, set_idt_gate}
use os_eojin.Gdt.{Gdt, init_gdt}
use os_eojin.Pmm.{Entry, init_pmm}
use os_eojin.Vmm.{Vmm, vmm_init}
use os_eojin.Kheap.{Heap, init_kheap}
use os_eojin.Process.{Kernel, say, init_multitasking}
use os_eojin.Devices.{Timer, Writes, init_timer, pic_remap}

-- The addresses of the assembly stubs that `main` names.
pub record Stubs : Type 0 where
  pub isr0 : ℕ
  pub isr8 : ℕ
  pub isr13 : ℕ
  pub isr14 : ℕ
  pub irq0 : ℕ
  pub irq1 : ℕ
  pub isr128 : ℕ

-- What `main` sets up. The machine of `heap` and that of `kernel` are one: each step hands it on.
pub record Boot : Type 0 where
  pub screen : Screen
  pub idt : ℕ → Gate
  pub ports : Writes
  pub gdt : Gdt
  pub heap : Heap
  pub kernel : Kernel
  pub tick : ℕ

unfoldable pub set_gates : Stubs → (ℕ → Gate) → ℕ → Gate
set_gates s idt = set_idt_gate 128 s.isr128 0xee (
    set_idt_gate 33 s.irq1 0x8e (
      set_idt_gate 32 s.irq0 0x8e (
        set_idt_gate 14 s.isr14 0x8e (
          set_idt_gate 13 s.isr13 0x8e
            (set_idt_gate 8 s.isr8 0x8e (set_idt_gate 0 s.isr0 0x8e idt))))))

-- The machine that the steps up to `init_multitasking` hand on: after `init_pmm`, `vmm_init`, `init_kheap`.
abbrev pub with_memory : List Entry → Machine → Machine
with_memory entries m = init_pmm entries (kprint (codes "init & remap\n") m)

abbrev pub with_tables : List Entry → Boot → Vmm
with_tables entries b = vmm_init (record {
  machine = with_memory entries b.heap.machine;
  current_pml4 = b.kernel.cr3;
  kernel_pml4 = b.kernel.kernel_pml4;
})

abbrev pub with_heap : List Entry → Boot → Heap
with_heap entries b = init_kheap (record (b.heap) { machine = (with_tables entries b).machine })

abbrev pub with_processes : List Entry → Boot → Kernel
with_processes entries b =
    let v = with_tables entries b in
    init_multitasking (record (b.kernel) {
      machine = (with_heap entries b).machine;
      kernel_pml4 = v.kernel_pml4;
      cr3 = v.current_pml4;
      rsp0 = 0;
    })

-- The prompt, with what `init_timer` left.
abbrev pub prompting : List ℕ → Boot → Option Timer → Option Boot
prompting path b none = none
prompting path b (some t) =
    let k = record (b.kernel) { machine = t.machine } in
    let k' = say (codes "> ") (say path (say (codes "OS_eojin:") k)) in
    some (record b {
      kernel = k';
      heap = record (b.heap) { machine = k'.machine };
      ports = t.ports;
      tick = t.tick;
    })

-- `entries` is the memory map of the boot code, `tss` the address of `tss_entry`, `path` what
-- `fat_get_current_path` returns.
unfoldable pub main :
    (stubs : Stubs) (tss : ℕ) (entries : List Entry) (path : List ℕ) → Boot → Option Boot
main stubs tss entries path b =
    let k = with_processes entries b in
    let ports = pic_remap (b.ports ++ ((0x20, 0x11) ∷ [])) ++ ((0x21, 0xfc) ∷ []) in
    let ready : Boot = record {
      screen = kprint_at (codes "Kernel loaded.\n") (pos 0) (pos 10) b.screen;
      idt = set_gates stubs b.idt;
      ports = ports;
      gdt = init_gdt tss b.gdt;
      heap = record (with_heap entries b) { machine = k.machine };
      kernel = k;
      tick = b.tick;
    } in
    prompting path ready
      (init_timer 50 (record { tick = b.tick; ports = ports; machine = k.machine }))
