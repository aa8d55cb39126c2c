-- ===== src/Shell/Directory.antt =====
-- The commands mkdir, touch and cd of src/kernel/kernel.c.
use os_eojin.Base.{
  ℕ, ◌+◌, Bool, true, false, List, codes, Option, some, ◌==◌, if◌then◌else◌, replicate,
}
use os_eojin.Fat.{
  Allocator, Fat, set_byte, set16, say, new_buffer, free_buffer, write_sector, fat_allocate_cluster,
  fat_lba_of_cluster,
}
use os_eojin.Fat.Dir.{set_bytes, after}
use os_eojin.Fat.Edit.{fat_create_entry}
use os_eojin.Shell.Sector.{cleared}

abbrev pub attr_directory : ℕ
attr_directory = 0x10

-- An entry of the new directory at `at`: its name, of spaces behind `dots`.
unfoldable pub dot_entry : (at : ℕ) → (dots : List ℕ) → (cluster : ℕ) → (ℕ → ℕ) → ℕ → ℕ
dot_entry at dots cluster buffer = set16 (at + 26) cluster (
    set_byte (at + 11) attr_directory (set_bytes at dots (set_bytes at (replicate 11 b' ') buffer)))

-- The sector that mkdir writes for `cluster`, in the directory at `parent`.
unfoldable pub new_directory : (cluster parent : ℕ) → (ℕ → ℕ) → ℕ → ℕ
new_directory cluster parent buffer =
    dot_entry 32 (codes "..") parent (dot_entry 0 (codes ".") cluster (cleared buffer))

module _ {A : Allocator} where
  abbrev pub said_created : Bool × Fat A → Fat A
  said_created (true, f) = say (codes "Directory created.\n") f
  said_created (false, f) = say (codes "Failed to create entry.\n") f

  abbrev pub make_in : (fuel : ℕ) → List ℕ → ℕ × Fat A → Option (Fat A)
  make_in fuel dirname (cluster, f) =
      let (p, f1) = new_buffer f in
      let buf = new_directory cluster f.current_dir_cluster (A.bytes p f1.heap) in
      let f2 = free_buffer p (write_sector (fat_lba_of_cluster cluster f1) buf f1) in
      let created =
        after said_created (fat_create_entry fuel dirname attr_directory cluster 0 f2) in
      if cluster == 0 then some (say (codes "Disk full (No free clusters).\n") f) else created

  unfoldable pub mkdir : (fuel : ℕ) → List ℕ → Fat A → Option (Fat A)
  mkdir fuel dirname f = make_in fuel dirname (fat_allocate_cluster f)

  abbrev said_file : Bool × Fat A → Fat A
  said_file (true, f) = say (codes "File created.\n") f
  said_file (false, f) = f

  unfoldable pub touch : (fuel : ℕ) → List ℕ → Fat A → Option (Fat A)
  touch fuel filename f = after said_file (fat_create_entry fuel filename 0 0 0 f)
