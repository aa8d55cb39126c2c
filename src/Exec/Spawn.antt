-- ===== src/Exec/Spawn.antt =====
-- What exec of src/kernel/kernel.c makes of a flat binary in memory: a process that can run it.
use os_eojin.Base.{ℕ, ◌+◌, ◌^◌, ◌<◌, codes}
use os_eojin.Machine.{Machine, kprint}
use os_eojin.Vmm.{Vmm}
use os_eojin.Vmm.Tree.{IsTree}
use os_eojin.Vmm.User.{UserSpace}
use os_eojin.Elf.Load.{IsKept}
use os_eojin.Process.{Kernel, max_processes}
use os_eojin.Exec.Flat.{flat}
use os_eojin.Exec.Running.{Running}

abbrev vmm_of : Kernel → Vmm
vmm_of k = record { machine = k.machine; current_pml4 = k.cr3; kernel_pml4 = k.kernel_pml4 }

abbrev refused : Machine → Machine
refused m = kprint (codes "ELF Header Error: MAG0\n") m

module _ (load_addr size : ℕ) (k : Kernel) (some' : 0 < size) (small : size < 2 ^ 32)
    (near : load_addr + size < 2 ^ 64) (room : k.process_count < max_processes) where
  module _ (level : ℕ → ℕ) (r c : ℕ) (v : Vmm) (space : UserSpace level r c (vmm_of k) v)
      (tree : IsTree level k.machine) (file : IsKept load_addr (flat size) level k.machine) where
    abbrev m1 : Machine
    m1 = refused v.machine
