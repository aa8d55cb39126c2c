-- ===== src/Exec/Tests.antt =====
-- The theorem about exec of src/kernel/kernel.c at a flat binary of two pages.
use os_eojin.Base.{ℕ, ◌+◌, ◌*◌, ◌/◌, ◌%◌, ◌<◌, ◌≡◌, refl, Bool, some, arith, if◌then◌else◌, ltb}
use os_eojin.Machine.{Machine}
use os_eojin.Vmm.Tree.{walk, IsTree, IsReached}
use os_eojin.Vmm.Aside.{IsTree-aside}
use os_eojin.Vmm.Sample.{machine, level, machine-IsTree}
use os_eojin.Elf.{end_vaddr}
use os_eojin.Elf.Load.{IsKept, Loaded}
use os_eojin.Process.{Kernel, ProcessState}
use os_eojin.Exec.Running.{Running}
use os_eojin.Exec.{flat_binary_vaddr, load_flat}
use os_eojin.Exec.Flat.{flat}
use os_eojin.Exec.Binary.{load_flat-Apart}

-- The file lies at 16MB.
abbrev with_file : ℕ → ℕ
with_file a = if ltb a 0x2000000 then a % 256 else 0

abbrev loading : Machine
loading = record machine { mem = with_file }

loading-IsTree : IsTree level loading
loading-IsTree = IsTree-aside level machine with_file machine-IsTree (λ a pos. ground arith)

file-IsKept : IsKept 0x1000000 (flat 5000) level loading
file-IsKept a lo hi = (loading-IsTree.reserved (a / 4096) (omega arith), ground arith)

loading-IsReached : IsReached flat_binary_vaddr level loading
loading-IsReached = record {
  identity = omega arith;
  blocks = omega arith;
  tables = λ p there. ground arith;
}

load_flat-Apart_example :
    (ok : Bool) × (m' : Machine) × (load_flat 3 (8192 * 4096) 0x1000000 5000 0 loading
      ≡ some (ok, m'))
    × Loaded 0x1000000
        (flat 5000)
        8192
        level
        loading
        (flat_binary_vaddr + 0)
        (end_vaddr (flat 5000))
        ok
        m'
    × ((q w : ℕ) → level q ≡ 4 → w < flat_binary_vaddr → walk 4 q w m'.mem ≡ walk 4 q w loading.mem)
load_flat-Apart_example =
    load_flat-Apart 0x1000000 8192 5000 (omega arith) (omega arith) 3 level loading loading-IsTree
      refl file-IsKept loading-IsReached (omega arith) (omega arith)

abbrev kernel : Kernel
kernel = record {
  machine = loading;
  processes = λ i. record {
    rsp = 0;
    pid = i;
    state = ProcessState.waiting;
    stack_base = 0;
    kernel_stack_base = 0;
    kernel_stack_top = 0;
    pml4 = 0;
  };
  current_pid = some 0;
  process_count = 1;
  kernel_pml4 = 8192 * 4096;
  cr3 = 8192 * 4096;
  rsp0 = 0;
}
