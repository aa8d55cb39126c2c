-- ===== src/Boot/Tests.antt =====
-- The theorem about main of src/kernel/kernel.c, at 64MB of memory.
use os_eojin.Base.{false, none, List, [], ◌∷◌}
use os_eojin.Machine.{Machine}
use os_eojin.Pmm.{Entry}
use os_eojin.Process.{ProcessState}
use os_eojin.Boot.{Stubs, Boot}

abbrev memory_map : List Entry
memory_map = record { base_addr = 0; length = 0x4000000; type = 1 } ∷ []

abbrev stubs : Stubs
stubs = record {
  isr0 = 0x10100;
  isr8 = 0x10200;
  isr13 = 0x10300;
  isr14 = 0x10400;
  irq0 = 0x10500;
  irq1 = 0x10600;
  isr128 = 0x10700;
}

abbrev machine : Machine
machine = record { mem = λ a. 0; bitmap = λ i. 0; total_blocks = 0; bitmap_size = 0; console = [] }

abbrev off : Boot
off = record {
  screen = record { mem = λ a. 0; selected = 0; register = λ r. 0 };
  idt = λ i. record {
    low_offset = 0;
    sel = 0;
    ist = 0;
    flags = 0;
    mid_offset = 0;
    high_offset = 0;
    reserved = 0;
  };
  ports = [];
  gdt = record {
    gdt_entries = λ i. record {
      limit_low = 0;
      base_low = 0;
      base_middle = 0;
      access = 0;
      granularity = 0;
      base_high = 0;
    };
    tss_entry = record { rsp0 = 0; iomap_base = 0 };
  };
  heap = record {
    machine = machine;
    head = 0;
    at = λ a. record { next = 0; size = 0; is_free = false };
  };
  kernel = record {
    machine = machine;
    processes = λ i. record {
      rsp = 0;
      pid = 0;
      state = ProcessState.ready;
      stack_base = 0;
      kernel_stack_base = 0;
      kernel_stack_top = 0;
      pml4 = 0;
    };
    current_pid = none;
    process_count = 0;
    kernel_pml4 = 0;
    cr3 = 0;
    rsp0 = 0;
  };
  tick = 0;
}
