-- ===== src/Shell/Tests.antt =====
-- The theorems about the shell of src/kernel/kernel.c at a small drive, with a file A.TXT of 600 bytes in
-- the clusters 2 and 3.
use os_eojin.Base.{
  ℕ, ◌+◌, ◌*◌, ◌≡◌, refl, true, false, some, List, [], ◌∷◌, ◌++◌, codes, arith, if◌then◌else◌, ◌==◌,
  ltb, get_or,
}
use os_eojin.Ata.{Drive, ata_read_sector, ata_write_sector, select, addressed}
use os_eojin.Machine.{Machine}
use os_eojin.Process.{Kernel, ProcessState}
use os_eojin.Vmm.Sample.{machine}
use os_eojin.Fat.{
  Allocator, Fat, fat_read_dir_sector, fat_lba_of_cluster, fat_allocate_cluster, search_fat,
  find_free, fat_write_fat_entry,
}
use os_eojin.Fat.Name.{fat_filename_match}
use os_eojin.Fat.Dir.{walk, find_entry, fat_find_file, entry_at, after}
use os_eojin.Fat.Edit.{fat_create_entry, fat_is_dir_empty}
use os_eojin.Fat.Path.{fat_change_dir}
use os_eojin.Fat.Entry.{Mounted, aside}
use os_eojin.Shell.State.{Pages, Shell, argument, prompt, tell_name, with_fat}
use os_eojin.Utils.{strcmp, get_next_token, skip_spaces, copy_token}
use os_eojin.Shell.ReadOnly.{user_input-drive}
use os_eojin.Shell.Program.{exec}
use os_eojin.Shell.Directory.{attr_directory, said_created, mkdir}
use os_eojin.Shell.File.{file_size, cat, load_file}
use os_eojin.Shell.Program.{load_addr}
use os_eojin.Shell.Contents.{file_bytes, Reachable}
use os_eojin.Shell.Kept.{user_input-kept}
use os_eojin.Shell.Loaded.{holding, load_file_lem}
use os_eojin.Shell.Printed.{messages, cat-messages}
use os_eojin.Shell.Dots.{mkdir-made}
use os_eojin.Shell.{user_input, run, with_argument}

-- A heap that hands out the next address, beside the machine.
abbrev bump : Allocator
bump = record {
  State = ℕ × Machine;
  kmalloc = λ n h. (h.0, (h.0 + n, h.1));
  kfree = λ p h. h;
  bytes = λ p h k. 0;
}

abbrev pages : Pages bump
pages = record { machine = λ h. h.1; with_machine = λ m h. (h.0, m) }

abbrev file_entry : List ℕ
file_entry =
    0x2041 ∷ 0x2020 ∷ 0x2020 ∷ 0x2020 ∷ 0x5854 ∷ 0x2054 ∷ 0 ∷ 0 ∷ 0 ∷ 0 ∷ 0 ∷ 0 ∷ 0 ∷ 2 ∷ 600 ∷ 0
    ∷ []

abbrev drive : Drive
drive = record {
  words = λ l i.
      if l == 1
      then (if i == 2 then 3 else if ltb i 4 then 65535 else 0)
      else if l == 65
      then get_or file_entry i 0
      else i;
  ready = true;
}

abbrev volume : Fat bump
volume = record {
  fat_info = record {
    bytes_per_sector = 512;
    sectors_per_cluster = 4;
    reserved_sectors = 1;
    fat_count = 2;
    root_dir_entries = 512;
    fat_size_16 = 32;
  };
  fat_start_sector = 1;
  root_dir_sector = 65;
  data_start_sector = 97;
  current_dir_cluster = 0;
  current_path = codes "/";
  is_fat_initialized = true;
  drive = drive;
  heap = (4096, machine);
  console = [];
}

abbrev kernel : Kernel
kernel = record {
  machine = machine;
  processes = λ i. record {
    rsp = 0;
    pid = i;
    state = ProcessState.waiting;
    stack_base = 0;
    kernel_stack_base = 0;
    kernel_stack_top = 0;
    pml4 = 0;
  };
  current_pid = some 0;
  process_count = 1;
  kernel_pml4 = 8192 * 4096;
  cr3 = 8192 * 4096;
  rsp0 = 0;
}

abbrev shell : Shell bump
shell = record {
  fat = volume;
  kernel = kernel;
  screen = record { mem = λ a. 0; selected = 0; register = λ r. 0 };
  ports = [];
  halted = false;
}

user_input-kept_example :
    (s1 s2 : Shell bump) × (user_input pages 9 (codes "write ok") shell ≡ some s1)
    × (user_input pages 9 (codes "read") s1 ≡ some s2)
    × (s2.fat.console
        ≡ s1.fat.console
          ++ (codes "Reading from LBA 200...\n"
              ∷ codes "Data: "
              ∷ codes "ok"
              ∷ codes "\n"
              ∷ codes "OS_eojin:"
              ∷ codes "/"
              ∷ codes "> "
              ∷ []))
user_input-kept_example =
    user_input-kept pages 9 b'o' (codes "k") shell
      ((omega arith, omega arith), ((omega arith, omega arith), tt))
      ((omega arith, omega arith), ((omega arith, omega arith), tt)) (omega arith) (omega arith)
      refl

abbrev a_txt : ℕ → ℕ
a_txt = entry_at 0 (ata_read_sector 65 (λ k. 0) drive)

abbrev looked_up : Fat bump
looked_up = record volume { heap = (4608, machine) }

find_a_txt : fat_find_file 3 (codes "a.txt") volume ≡ some (some a_txt, looked_up)
unfolding fat_find_file walk find_entry fat_read_dir_sector fat_filename_match ata_read_sector
    select addressed
find_a_txt = refl

looked_up-Mounted : Mounted looked_up
looked_up-Mounted = record { low = omega arith; ready = refl }

looked_up-Reachable : Reachable (2 ∷ 3 ∷ []) looked_up
unfolding fat_lba_of_cluster
looked_up-Reachable = (omega arith, (omega arith, tt))

cat-messages_example :
    (f' : Fat bump) × (cat 3 (codes "a.txt") volume ≡ some f')
    × (f'.console
        ≡ []
          ++ (messages (file_bytes (2 ∷ 3 ∷ []) (file_size a_txt) looked_up) ++ (codes "\n" ∷ [])))
    × (f'.drive ≡ drive)
unfolding ata_read_sector select addressed
cat-messages_example =
    cat-messages 3 (codes "a.txt") (2 ∷ 3 ∷ []) a_txt volume looked_up find_a_txt (omega arith)
      (omega arith) looked_up-Mounted
      (refl, omega arith, refl, (refl, omega arith, refl, (omega arith, omega arith)))
      looked_up-Reachable

load_file_lem_example :
    (mem' : ℕ → ℕ) × (heap : bump.State) × (load_file 3 2 600 load_addr
        (λ k. 0)
        machine.mem
        looked_up
      ≡ some (mem', aside heap [] looked_up))
    × ((a : ℕ) → mem' a ≡ holding load_addr (file_bytes (2 ∷ 3 ∷ []) 600 looked_up) machine.mem a)
load_file_lem_example =
    load_file_lem 3 600 load_addr (2 ∷ 3 ∷ []) 2 (λ k. 0) machine.mem looked_up (omega arith)
      looked_up-Mounted
      (refl, omega arith, refl, (refl, omega arith, refl, (omega arith, omega arith)))
      looked_up-Reachable

mkdir-made_example :
    (f2 f3 f4 : Fat bump) × (mkdir 9 (codes "bin") volume
      ≡ after said_created (fat_create_entry 9 (codes "bin") attr_directory 4 0 f2))
    × (fat_is_dir_empty 1 4 f2 ≡ some (true, f3))
    × (fat_change_dir 1 (codes "..") (record f2 { current_dir_cluster = 4 }) ≡ some f4)
    × (f2.current_dir_cluster ≡ 0)
    × (f4.current_dir_cluster ≡ 0)
unfolding fat_allocate_cluster search_fat find_free fat_lba_of_cluster ata_read_sector select
    addressed fat_write_fat_entry ata_write_sector
mkdir-made_example =
    mkdir-made 9 0 (codes "bin") 4 volume (fat_allocate_cluster volume).1 refl (omega arith)
      (omega arith) (omega arith) (omega arith) refl refl (omega arith) (omega arith)

exec_token : argument (codes "exec b") 0 ≡ some (codes "exec")
unfolding get_next_token skip_spaces copy_token
exec_token = refl

exec_missing :
    user_input pages 3 (codes "exec b") shell
    ≡ some (prompt (tell_name (codes "File not found: ") (codes "b") (with_fat looked_up shell)))
unfolding user_input run strcmp with_argument exec fat_find_file walk find_entry fat_read_dir_sector
    fat_filename_match ata_read_sector select addressed get_next_token skip_spaces copy_token
exec_missing = refl

user_input-drive_example :
    (prompt (tell_name (codes "File not found: ") (codes "b") (with_fat looked_up shell))).fat.drive
    ≡ shell.fat.drive
unfolding strcmp
user_input-drive_example =
    user_input-drive pages 3 (codes "exec b") (codes "exec") shell _ exec_token refl refl refl refl
      refl exec_missing
