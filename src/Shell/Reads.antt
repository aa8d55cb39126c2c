-- ===== src/Shell/Reads.antt =====
-- The commands of src/kernel/kernel.c that read files leave the drive.
use os_eojin.Base.{
  ℕ, zero, suc, ◌+◌, ◌-◌, ◌≡◌, refl, Bool, true, ltb, ◌==◌, ◌&&◌, List, codes, Option, none, some,
  ◌∙◌,
}
use os_eojin.Ata.{Drive}
use os_eojin.Utils.{hex_to_ascii}
use os_eojin.Process.{Kernel}
use os_eojin.Isr.{c_string}
use os_eojin.Exec.{spawn}
use os_eojin.Fat.{
  Allocator, Fat, new_buffer, free_buffer, fat_next_cluster, fat_lba_of_cluster, read_sector, say,
}
use os_eojin.Fat.Dir.{after, first_cluster_low, fat_find_file}
use os_eojin.Fat.Edit.{bind}
use os_eojin.Fat.ReadOnly.{if_both, Stays, StaysWith, fat_next_cluster-drive, fat_find_file-drive}
use os_eojin.Shell.State.{Pages, Shell, kernel_of, machine_of, with_machine, with_fat, tell}
use os_eojin.Shell.Sector.{read}
use os_eojin.Shell.File.{file_size, print_bytes, print_file, print_found, cat, load_file}
use os_eojin.Shell.Program.{load_addr, spawned, start_program, exec_found, exec}
use os_eojin.Shell.{on_file, with_argument, heap_test}

module _ {A : Allocator} where
  after_text :
      (g : List ℕ → Fat A) (o : Option (List ℕ)) (d : Drive)
      → ((text : List ℕ) → (g text).drive ≡ d)
      → Stays d (after g o)
  after_text g none d e = tt
  after_text g (some text) d e = e text

  pub read-drive : (fuel : ℕ) (f : Fat A) → Stays f.drive (read fuel f)
  unfolding read
  read-drive fuel f = after_text _ (c_string fuel 0 _) f.drive (λ text. refl)

  -- A step that goes on with what a search found.
  bind-drive {ℓ} :
      {X : Type ℓ} (g : X × Fat A → Option (Fat A)) (o : Option (X × Fat A)) (d : Drive)
      → ((x : X) (f : Fat A) → f.drive ≡ d → Stays d (g (x, f)))
      → StaysWith d o
      → Stays d (bind o g)
  bind-drive g none d keeps e = tt
  bind-drive g (some (x, f)) d keeps e = keeps x f e

  print_bytes-drive :
      (n i size : ℕ) (buf : ℕ → ℕ) (f : Fat A) → (print_bytes n i size buf f).1.drive ≡ f.drive
  unfolding print_bytes
  print_bytes-drive zero i size buf f = refl
  print_bytes-drive (suc n) i size buf f =
      if_both (λ (r : ℕ × Fat A). r.1.drive ≡ f.drive) (ltb 0 size) _ (size, f)
        (print_bytes-drive n (i + 1) (size - 1) buf _) refl

  print_file-drive :
      (fuel cluster size : ℕ) (buf : ℕ → ℕ) (f : Fat A) (d : Drive)
      → f.drive ≡ d
      → Stays d (print_file fuel cluster size buf f)
  unfolding print_file
  print_file-drive zero cluster size buf f d e = tt
  print_file-drive (suc fuel) cluster size buf f d e =
      let buf' = read_sector (fat_lba_of_cluster cluster f) buf f in
      let (size', f1) = print_bytes 512 0 size buf' f in
      let (next, f2) = fat_next_cluster cluster f1 in
      if_both (Stays d) (ltb 0 size && ltb cluster 65528) _ (some f)
        (print_file-drive fuel next size' buf' f2 d
          (fat_next_cluster-drive cluster f1 ∙ print_bytes-drive 512 0 size buf' f ∙ e))
        e

  printed-drive :
      (p : ℕ) (o : Option (Fat A)) (d : Drive)
      → Stays d o
      → Stays d (after (λ f2. free_buffer p (say (codes "\n") f2)) o)
  printed-drive p none d e = tt
  printed-drive p (some f) d e = e

  print_found-drive :
      (fuel : ℕ) (name : List ℕ) (d : Drive) (o : Option (ℕ → ℕ)) (f : Fat A)
      → f.drive ≡ d
      → Stays d (print_found fuel name (o, f))
  print_found-drive fuel name d none f e = e
  print_found-drive fuel name d (some entry) f e =
      let (p, f1) = new_buffer f in
      if_both (Stays d) (p == 0) _ _ e (
        printed-drive p _ d (
          print_file-drive fuel (first_cluster_low entry) (file_size entry) (A.bytes p f1.heap) f1 d
            e))

  pub cat-drive : (fuel : ℕ) (name : List ℕ) (f : Fat A) → Stays f.drive (cat fuel name f)
  unfolding cat
  cat-drive fuel name f =
      bind-drive (print_found fuel name) (fat_find_file fuel name f) f.drive
        (print_found-drive fuel name f.drive) (fat_find_file-drive fuel name f)

  load_file-drive :
      (fuel cluster size ptr : ℕ) (buf mem : ℕ → ℕ) (f : Fat A) (d : Drive)
      → f.drive ≡ d
      → StaysWith d (load_file fuel cluster size ptr buf mem f)
  unfolding load_file
  load_file-drive zero cluster size ptr buf mem f d e = tt
  load_file-drive (suc fuel) cluster size ptr buf mem f d e =
      let (next, f1) = fat_next_cluster cluster f in
      if_both (StaysWith d) (ltb 0 size && ltb cluster 65528) _ (some (mem, f))
        (load_file-drive fuel next _ _ _ _ f1 d (fat_next_cluster-drive cluster f ∙ e)) e

  -- What a command leaves of the drive.
  unfoldable pub Leaves : Drive → Option (Bool × Shell A) → Type 0
  Leaves d none = Unit
  Leaves d (some (b, s)) = s.fat.drive ≡ d

  pub leaves : (b : Bool) (s : Shell A) (d : Drive) → s.fat.drive ≡ d → Leaves d (some (b, s))
  unfolding Leaves
  leaves b s d e = e

  pub on_file-drive :
      (s : Shell A) (o : Option (Fat A)) (d : Drive) → Stays d o → Leaves d (on_file s o)
  unfolding Leaves
  on_file-drive s none d e = tt
  on_file-drive s (some f) d e = e

  pub with_argument-drive :
      (usage : List ℕ) (command : List ℕ → Option (Bool × Shell A)) (s : Shell A)
      (o : Option (List ℕ))
      → ((name : List ℕ) → Leaves s.fat.drive (command name))
      → Leaves s.fat.drive (with_argument usage command s o)
  unfolding with_argument
  with_argument-drive usage command s none e = leaves true _ s.fat.drive refl
  with_argument-drive usage command s (some name) e = e name

  pub heap_test-drive : (f : Fat A) → (heap_test f).drive ≡ f.drive
  unfolding heap_test
  heap_test-drive f = if_both (λ (g : Fat A). g.drive ≡ f.drive) _ _ _ refl refl

module _ {A : Allocator} (P : Pages A) where
  spawned-drive :
      (s : Shell A) (o : Option Kernel) (d : Drive) → s.fat.drive ≡ d → Leaves d (spawned P s o)
  unfolding Leaves
  spawned-drive s none d e = tt
  spawned-drive s (some k) d e = e

  start_program-drive :
      (fuel : ℕ) (name : List ℕ) (size p : ℕ) (s : Shell A) (d : Drive) (mem : ℕ → ℕ) (f : Fat A)
      → f.drive ≡ d
      → Leaves d (start_program P fuel name size p s (mem, f))
  start_program-drive fuel name size p s d mem f e =
      let s1 = with_fat f s in
      let s2 = with_machine P (record (machine_of P s1) { mem = mem }) s1 in
      let s3 = with_fat (free_buffer p s2.fat) s2 in
      let loaded =
        tell (codes " bytes at 0x4000000\n")
          (tell (hex_to_ascii size) (tell (codes "Loaded ") s3)) in
      let s4 = tell (codes "...\n") (tell name (tell (codes "Spawning Process for ") loaded)) in
      spawned-drive s4 (spawn fuel load_addr size (kernel_of P s4)) d e

  bind_program-drive {ℓ} :
      {X : Type ℓ} (g : X × Fat A → Option (Bool × Shell A)) (o : Option (X × Fat A)) (d : Drive)
      → ((x : X) (f : Fat A) → f.drive ≡ d → Leaves d (g (x, f)))
      → StaysWith d o
      → Leaves d (bind o g)
  unfolding Leaves
  bind_program-drive g none d keeps e = tt
  bind_program-drive g (some (x, f)) d keeps e = keeps x f e

  exec_found-drive :
      (fuel : ℕ) (name : List ℕ) (s : Shell A) (d : Drive) (o : Option (ℕ → ℕ)) (f : Fat A)
      → f.drive ≡ d
      → Leaves d (exec_found P fuel name s (o, f))
  exec_found-drive fuel name s d none f e = leaves true _ d e
  exec_found-drive fuel name s d (some entry) f e =
      let (p, f1) = new_buffer f in
      if_both (Leaves d) (p == 0) _ _
        (leaves true (tell (codes "exec: Memory allocation failed\n") (with_fat f1 s)) d e)
        (bind_program-drive (start_program P fuel name (file_size entry) p (with_fat f1 s)) _ d
          (start_program-drive fuel name (file_size entry) p (with_fat f1 s) d)
          (load_file-drive fuel (first_cluster_low entry) (file_size entry) load_addr _ _ f1 d e))

  pub exec-drive :
      (fuel : ℕ) (name : List ℕ) (s : Shell A) → Leaves s.fat.drive (exec P fuel name s)
  unfolding exec
  exec-drive fuel name s =
      bind_program-drive (exec_found P fuel name s) (fat_find_file fuel name s.fat) s.fat.drive
        (exec_found-drive fuel name s s.fat.drive) (fat_find_file-drive fuel name s.fat)
