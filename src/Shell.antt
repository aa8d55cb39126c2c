-- ===== src/Shell.antt =====
-- The shell of src/kernel/kernel.c: `user_input` on a typed line. The numbers that fuel bounds are the
-- sectors of a directory, the clusters of a chain, the bytes of a string and the rounds of exec.
pub mod State
pub mod Sector
pub mod Directory
pub mod File
pub mod Program
pub mod Text
pub mod Kept
pub mod Contents
pub mod Printed
pub mod Loaded
pub mod Dots
pub mod Reads
pub mod ReadOnly
mod Tests
use os_eojin.Base.{
  ℕ, Bool, true, false, ◌||◌, List, [], ◌∷◌, ◌++◌, codes, drop, Option, none, some, ◌==◌,
  if◌then◌else◌,
}
use os_eojin.Machine.{kprint}
use os_eojin.Utils.{hex_to_ascii, get_next_token, skip_spaces}
use os_eojin.Pmm.{pmm_alloc_block}
use os_eojin.Devices.{print_memory_map}
use os_eojin.Screen.{Screen, clear_screen}
use os_eojin.Screen
use os_eojin.Fat.{Allocator, Fat, say}
use os_eojin.Fat.Dir.{after}
use os_eojin.Fat.Edit.{fat_delete_file, fat_delete_dir}
use os_eojin.Fat.Path.{fat_change_dir}
use os_eojin.Fat.Mount.{fat_init, fat_list}
use os_eojin.Shell.State.{
  Pages, Shell, is_command, argument, with_fat, tell, tell_name, prompt, machine_of, with_machine,
}
use os_eojin.Shell.Sector.{write, read}
use os_eojin.Shell.Directory.{mkdir, touch}
use os_eojin.Shell.File.{cat}
use os_eojin.Shell.Program.{exec}

abbrev help_text : List (List ℕ)
help_text =
    codes "Available commands:\n"
    ∷ codes "    help            - Show this list\n"
    ∷ codes "    clear           - Clear the screen\n"
    ∷ codes "    shutdown        - Power off the system\n"
    ∷ codes "    memory          - Show Memory Map\n"
    ∷ codes "    echo [message]  - Print message\n"
    ∷ codes "    write [data]    - Write Data to Disk\n"
    ∷ codes "    read            - Read Data from Disk\n"
    ∷ codes "    mount           - Connect fat_init() and ATA Driver\n"
    ∷ codes "    ls              - List Root Directory\n"
    ∷ codes "    cat [file]      - Print File Content\n"
    ∷ codes "    exec [file]     - Execute User Program\n"
    ∷ codes "    cd [dir]        - Change Directory\n"
    ∷ codes "    touch [file]    - Create Empty File\n"
    ∷ codes "    mkdir [dir]     - Create Directory\n"
    ∷ codes "    rm [file]       - Remove File\n"
    ∷ codes "    rmdir [dir]     - Remove Directory\n"
    ∷ []

-- The messages that are not on the screen yet.
abbrev show : List (List ℕ) → Screen → Screen
show [] screen = screen
show (message ∷ messages) screen = show messages (Screen.kprint message screen)

module _ {A : Allocator} where
  pub help : Shell A → Shell A
  help s = with_fat (record (s.fat) { console = s.fat.console ++ help_text }) s

  pub clear : Shell A → Shell A
  clear s = record s {
    screen = clear_screen (show s.fat.console s.screen);
    fat = record (s.fat) { console = [] };
  }

  pub shutdown : Shell A → Shell A
  shutdown s =
      let s1 = tell (codes "Shutting down...\n") s in
      tell (codes "It is now safe to turn off your computer.\n")
        (record s1 { ports = s1.ports ++ ((0xB004, 0x2000) ∷ (0x604, 0x2000) ∷ []); halted = true })

  pub echo : List ℕ → ℕ → Shell A → Shell A
  echo input offset s =
      tell (codes "\n") (tell (drop (skip_spaces (drop offset input) offset) input) s)

  abbrev pub on_file : Shell A → Option (Fat A) → Option (Bool × Shell A)
  on_file s none = none
  on_file s (some f) = some (true, with_fat f s)

  abbrev pub on_deleted : Shell A → Option (Bool × Fat A) → Option (Bool × Shell A)
  on_deleted s none = none
  on_deleted s (some (done, f)) = some (true, with_fat f s)

  abbrev stay : Shell A → Option (Bool × Shell A)
  stay s = some (true, s)

  -- A command with an argument, or the message for its use.
  unfoldable pub with_argument :
      List ℕ
      → (List ℕ → Option (Bool × Shell A))
      → Shell A
      → Option (List ℕ)
      → Option (Bool × Shell A)
  with_argument usage command s none = stay (tell usage s)
  with_argument usage command s (some arg) = command arg

  -- kprint(label); hex_to_ascii(ptr, buf); kprint(buf); kprint("\n");
  abbrev tell_pointer : List ℕ → ℕ → Fat A → Fat A
  tell_pointer label ptr f = say (codes "\n") (say (hex_to_ascii ptr) (say label f))

  abbrev on_heap : A.State → Fat A → Fat A
  on_heap heap f = record f { heap = heap }

  pub heap_test : Fat A → Fat A
  heap_test f =
      let (a, heap1) = A.kmalloc 64 f.heap in
      let f1 = tell_pointer (codes "Alloc A: ") a (on_heap heap1 f) in
      let (b, heap2) = A.kmalloc 64 f1.heap in
      let f2 = tell_pointer (codes "Alloc B: ") b (on_heap heap2 f1) in
      let (c, heap3) = A.kmalloc 64 f2.heap in
      let f3 = say (codes "Free B...\n") (tell_pointer (codes "Alloc C: ") c (on_heap heap3 f2)) in
      let (d, heap4) = A.kmalloc 64 (A.kfree b f3.heap) in
      let f4 = tell_pointer (codes "Alloc D: ") d (on_heap heap4 f3) in
      let f5 =
        if d == b
        then say (codes "Heap Test Passed! (Address Reused)\n") f4
        else say (codes "Heap Test Failed (Address Not Reused)\n") f4 in
      on_heap (A.kfree d (A.kfree c (A.kfree a f5.heap))) f5

module _ {A : Allocator} (P : Pages A) where
  pub memory : Shell A → Shell A
  memory s = with_machine P (print_memory_map (machine_of P s)) s

  pub alloc : Shell A → Shell A
  alloc s =
      let (ptr, m) = pmm_alloc_block (machine_of P s) in
      let s1 = with_machine P m s in
      if ptr == 0
      then tell (codes "Allocation Failed (Out of Memory)\n") s1
      else tell_name (codes "Allocated at: ") (hex_to_ascii ptr) s1

  -- The chain of tests on the command, and whether the prompt follows.
  unfoldable pub run : (fuel : ℕ) → (input command : List ℕ) → ℕ → Shell A → Option (Bool × Shell A)
  run fuel input command offset s =
      let arg = argument input offset in
      let is = is_command command in
      if is (codes "help")
      then stay (help s)
      else if is (codes "clear")
      then stay (clear s)
      else if is (codes "shutdown") || is (codes "halt")
      then some (false, shutdown s)
      else if is (codes "memory")
      then stay (memory s)
      else if is (codes "echo")
      then stay (echo input offset s)
      else if is (codes "write")
      then on_file s (write fuel input offset s.fat)
      else if is (codes "read")
      then on_file s (read fuel s.fat)
      else if is (codes "mount")
      then on_file s (fat_init s.fat)
      else if is (codes "ls")
      then on_file s (fat_list fuel s.fat)
      else if is (codes "cat")
      then with_argument (codes "Usage: cat <filename>\n") (λ name. on_file s (cat fuel name s.fat))
          s arg
      else if is (codes "exec")
      then with_argument (codes "Usage: exec <filename>\n") (λ name. exec P fuel name s) s arg
      else if is (codes "cd")
      then with_argument (codes "Usage: cd <dirname>\n")
          (λ name. on_file s (fat_change_dir fuel name s.fat)) s arg
      else if is (codes "touch")
      then with_argument (codes "Usage: touch <filename>\n")
          (λ name. on_file s (touch fuel name s.fat)) s arg
      else if is (codes "mkdir")
      then with_argument (codes "Usage: mkdir <dirname>\n")
          (λ name. on_file s (mkdir fuel name s.fat)) s arg
      else if is (codes "rm")
      then with_argument (codes "Usage: rm <filename>\n")
          (λ name. on_deleted s (fat_delete_file fuel name s.fat)) s arg
      else if is (codes "rmdir")
      then with_argument (codes "Usage: rmdir <dirname>\n")
          (λ name. on_deleted s (fat_delete_dir fuel name s.fat)) s arg
      else if is (codes "alloc")
      then stay (alloc s)
      else if is (codes "heap_test")
      then stay (with_fat (heap_test s.fat) s)
      else stay (tell_name (codes "Unknown command: ") input s)

  abbrev end_line : Option (Bool × Shell A) → Option (Shell A)
  end_line none = none
  end_line (some (true, s)) = some (prompt s)
  end_line (some (false, s)) = some s

  -- What `get_next_token` finds first in the line.
  abbrev on_token : (fuel : ℕ) → List ℕ → Shell A → Bool × Option (List ℕ) × ℕ → Option (Shell A)
  on_token fuel input s (ok, none, offset) = some (prompt s)
  on_token fuel input s (ok, some command, offset) = end_line (run fuel input command offset s)

  unfoldable pub user_input : (fuel : ℕ) → List ℕ → Shell A → Option (Shell A)
  user_input fuel input s = on_token fuel input s (get_next_token input 0)
