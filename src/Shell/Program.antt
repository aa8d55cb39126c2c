-- ===== src/Shell/Program.antt =====
-- The command exec of src/kernel/kernel.c: the file goes to 64MB, and from there into a process.
use os_eojin.Base.{ℕ, Bool, true, false, List, codes, Option, none, some, ◌==◌, if◌then◌else◌}
use os_eojin.Utils.{hex_to_ascii}
use os_eojin.Process.{Kernel}
use os_eojin.Fat.{Allocator, Fat, new_buffer, free_buffer}
use os_eojin.Fat.Dir.{first_cluster_low, fat_find_file}
use os_eojin.Fat.Edit.{bind}
use os_eojin.Exec.{spawn}
use os_eojin.Shell.State.{
  Pages, Shell, tell, tell_name, with_fat, machine_of, with_machine, kernel_of, with_kernel,
}
use os_eojin.Shell.File.{file_size, load_file}

abbrev pub load_addr : ℕ
load_addr = 0x4000000

module _ {A : Allocator} (P : Pages A) where
  -- `false`: user_input returns without the prompt.
  abbrev pub spawned : Shell A → Option Kernel → Option (Bool × Shell A)
  spawned s none = none
  spawned s (some k) = some (false, with_kernel P k s)

  -- What follows the loop over the file.
  abbrev pub start_program :
      (fuel : ℕ) → List ℕ → (size p : ℕ) → Shell A → (ℕ → ℕ) × Fat A → Option (Bool × Shell A)
  start_program fuel filename size p s (mem, f) =
      let s1 = with_fat f s in
      let s2 = with_machine P (record (machine_of P s1) { mem = mem }) s1 in
      let s3 = with_fat (free_buffer p s2.fat) s2 in
      let loaded =
        tell (codes " bytes at 0x4000000\n")
          (tell (hex_to_ascii size) (tell (codes "Loaded ") s3)) in
      let s4 = tell (codes "...\n") (tell filename (tell (codes "Spawning Process for ") loaded)) in
      spawned s4 (spawn fuel load_addr size (kernel_of P s4))

  abbrev pub exec_found :
      (fuel : ℕ) → List ℕ → Shell A → Option (ℕ → ℕ) × Fat A → Option (Bool × Shell A)
  exec_found fuel filename s (none, f) =
      some (true, tell_name (codes "File not found: ") filename (with_fat f s))
  exec_found fuel filename s (some e, f) =
      let (p, f1) = new_buffer f in
      let s1 = with_fat f1 s in
      let loaded =
        load_file fuel (first_cluster_low e) (file_size e) load_addr (A.bytes p f1.heap)
          (machine_of P s1).mem f1 in
      if p == 0
      then some (true, tell (codes "exec: Memory allocation failed\n") s1)
      else bind loaded (start_program fuel filename (file_size e) p s1)

  unfoldable pub exec : (fuel : ℕ) → List ℕ → Shell A → Option (Bool × Shell A)
  exec fuel filename s = bind (fat_find_file fuel filename s.fat) (exec_found fuel filename s)
