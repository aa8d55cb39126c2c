-- ===== src/Boot/Ready.antt =====
-- The state in which `main` of src/kernel/kernel.c leaves the kernel.
use os_eojin.Base.{
  ℕ, ◌+◌, ◌/◌, ◌%◌, ◌-◌, ◌*◌, ◌^◌, ◌<◌, ◌≡◌, true, List, [], ◌∷◌, ◌==◌, if◌then◌else◌, ◌⊎◌,
}
use os_eojin.Machine.{Machine}
use os_eojin.Idt.{handler_of}
use os_eojin.Pmm.{Entry, block_size}
use os_eojin.Vmm.{Vmm}
use os_eojin.Vmm.Init.{AllUsed, Identity}
use os_eojin.Kheap.{header_size}
use os_eojin.Kheap.Malloc.{IsHeap}
use os_eojin.Process.Schedule.{IsValid}
use os_eojin.Devices.{Writes}
use os_eojin.Boot.{Stubs, Boot, with_memory, with_tables}

-- An interrupt controller 8259 as its data sheet has it, with what its two ports were written: a
-- command with bit 4 starts the set-up, the next data byte is the vector of its first interrupt, two more
-- follow, and a data byte after them is the mask.
pub record Controller : Type 0 where
  pub stage : ℕ
  pub vector : ℕ
  pub mask : ℕ

abbrev data_byte : ℕ → Controller → Controller
data_byte v c =
    if c.stage == 1
    then record c { stage = 2; vector = v }
    else if c.stage == 2
    then record c { stage = 3 }
    else if c.stage == 3
    then record c { stage = 0 }
    else record c { mask = v }

-- The controller at the ports `port` and `port + 1`.
pub after_writes : (port : ℕ) → Writes → Controller → Controller
after_writes port [] c = c
after_writes port ((p, v) ∷ rest) c = after_writes port rest (
    if p == port
    then (if v / 16 % 2 == 1 then record c { stage = 1; mask = 0 } else c)
    else if p == port + 1
    then data_byte v c
    else c)

pub record IsReady (stubs : Stubs) (page : ℕ) (b : Boot) : Type 0 where
  -- each interrupt has its handler behind a present gate, and of these only vector 128 may be called
  -- from ring 3
  pub gates :
      (handler_of (b.idt 0) ≡ stubs.isr0)
      × (handler_of (b.idt 8) ≡ stubs.isr8)
      × (handler_of (b.idt 13) ≡ stubs.isr13)
      × (handler_of (b.idt 14) ≡ stubs.isr14)
      × (handler_of (b.idt 32) ≡ stubs.irq0)
      × (handler_of (b.idt 33) ≡ stubs.irq1)
      × (handler_of (b.idt 128) ≡ stubs.isr128)
      × ((b.idt 0).flags ≡ 0x8e)
      × ((b.idt 8).flags ≡ 0x8e)
      × ((b.idt 13).flags ≡ 0x8e)
      × ((b.idt 14).flags ≡ 0x8e)
      × ((b.idt 32).flags ≡ 0x8e)
      × ((b.idt 33).flags ≡ 0x8e)
      × ((b.idt 128).flags ≡ 0xee)
  -- the first controller lets the timer and the keyboard through, on vectors 32 and 33; the second one
  -- lets nothing through
  pub first :
      (c : Controller)
      → after_writes 0x20 b.ports c ≡ record { stage = 0; vector = 32; mask = 0xfc }
  pub second :
      (c : Controller)
      → after_writes 0xa0 b.ports c ≡ record { stage = 0; vector = 40; mask = 0xff }
  pub root : ℕ
  pub cr3 : b.kernel.cr3 ≡ root * 4096
  pub kernel_pml4 : b.kernel.kernel_pml4 ≡ root * 4096
  pub mapped : Identity root 131072 b.kernel.machine
  pub heap :
      IsHeap b.heap (record { addr = page; size = block_size - header_size; free = true } ∷ [])
      ⊎ AllUsed b.kernel.machine
  pub one_machine : b.heap.machine ≡ b.kernel.machine
  pub process : IsValid b.kernel 0
  pub only : b.kernel.process_count ≡ 1

pub record IsStubs (s : Stubs) : Type 0 where
  pub isr0 : s.isr0 < 2 ^ 64
  pub isr8 : s.isr8 < 2 ^ 64
  pub isr13 : s.isr13 < 2 ^ 64
  pub isr14 : s.isr14 < 2 ^ 64
  pub irq0 : s.irq0 < 2 ^ 64
  pub irq1 : s.irq1 < 2 ^ 64
  pub isr128 : s.isr128 < 2 ^ 64

module _ (entries : List Entry) (b : Boot) where
  abbrev m2 : Machine
  m2 = with_memory entries b.heap.machine

  abbrev v3 : Vmm
  v3 = with_tables entries b
