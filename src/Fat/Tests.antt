-- ===== src/Fat/Tests.antt =====
-- The theorems about src/fs/fat.c at a small drive.
use os_eojin.Base.{
  ℕ, ◌+◌, ◌*◌, ◌^◌, ◌≤◌, ◌<◌, ◌≡◌, ◌≢◌, refl, true, some, Option, [], ◌∷◌, arith, if◌then◌else◌,
  ltb, ◌==◌, ◌⊎◌, ◌↔◌, inr, map, codes, ◌++◌, replicate,
}
use os_eojin.Ata.{Drive}
use os_eojin.Fat.{
  Allocator, Fat, fat_next_cluster, fat_write_fat_entry, fat_allocate_cluster,
  fat_free_cluster_chain, new_buffer, free_buffer, get32,
}
use os_eojin.Fat.Entry.{Mounted, entry, fat_next_cluster-fat_write_fat_entry}
use os_eojin.Fat.Free.{fat_allocate_cluster_outcome}
use os_eojin.Fat.Chains.{member, fat_free_cluster_chain-Linked}
use os_eojin.Fat.Name.{upper, fat_filename_match, to_short}
use os_eojin.Fat.NameLaws.{Is83, fat_filename_match-to_short}
use os_eojin.Fat.Dir.{fat_find_file}
use os_eojin.Fat.Path.{up, down}
use os_eojin.Fat.Route.{up-down}
use os_eojin.Fat.Dir.{entry_at, attributes, first_cluster_low, fill_entry}
use os_eojin.Fat.Slot.{fill_entry_fields}
use os_eojin.Fat.Mount.{name_messages}
use os_eojin.Fat.Listing.{in_a_row, fat_filename_match-listed}
use os_eojin.Fat.Found.{First, fat_find_file-First}

-- A heap that hands out the next address.
abbrev bump : Allocator
bump = record { State = ℕ; kmalloc = λ n p. (p, p + n); kfree = λ p s. s; bytes = λ p s k. 0 }

-- Entries 2 and 3 of the table are a chain; entry 4 is free.
abbrev drive : Drive
drive = record {
  words = λ l i. if l == 1 then (if i == 2 then 3 else if ltb i 4 then 65535 else 0) else 0;
  ready = true;
}

abbrev volume : Fat bump
volume = record {
  fat_info = record {
    bytes_per_sector = 512;
    sectors_per_cluster = 4;
    reserved_sectors = 1;
    fat_count = 2;
    root_dir_entries = 512;
    fat_size_16 = 32;
  };
  fat_start_sector = 1;
  root_dir_sector = 65;
  data_start_sector = 97;
  current_dir_cluster = 0;
  current_path = codes "/";
  is_fat_initialized = true;
  drive = drive;
  heap = 4096;
  console = [];
}

volume-Mounted : Mounted volume
volume-Mounted = record { low = omega arith; ready = refl }

fat_next_cluster-fat_write_fat_entry_example :
    (fat_next_cluster 2 (fat_write_fat_entry 4 65535 volume)).0
    ≡ (if 4 == 2 then 65535 else (fat_next_cluster 2 volume).0)
fat_next_cluster-fat_write_fat_entry_example =
    fat_next_cluster-fat_write_fat_entry 4 2 65535 volume (omega arith) (omega arith) (omega arith)
      volume-Mounted

fat_allocate_cluster_outcome_example :
    let c = (fat_allocate_cluster volume).0 in
    let f' = (fat_allocate_cluster volume).1 in
    ((2 ≤ c)
      × (c < 32 * 256)
      × (entry c volume ≡ 0)
      × ((d : ℕ) → d < c → 2 ≤ d → entry d volume ≢ 0)
      × ((d : ℕ) → d < 2 ^ 16 → entry d f' ≡ (if c == d then 65535 else entry d volume)))
    ⊎ ((c ≡ 0) × (f'.drive ≡ volume.drive) × ((d : ℕ) → d < 32 * 256 → 2 ≤ d → entry d volume ≢ 0))
fat_allocate_cluster_outcome_example =
    fat_allocate_cluster_outcome volume (omega arith) volume-Mounted

fat_free_cluster_chain-Linked_example :
    (f' : Fat bump) × (fat_free_cluster_chain 5 2 volume ≡ some f')
    × ((d : ℕ) → d < 2 ^ 16 → entry d f' ≡ (if member d (2 ∷ 3 ∷ []) then 0 else entry d volume))
fat_free_cluster_chain-Linked_example =
    fat_free_cluster_chain-Linked 5 2 (3 ∷ []) volume (omega arith) (omega arith) volume-Mounted
      (refl, omega arith, refl, (refl, omega arith, refl, (omega arith, omega arith)))

a_txt : Is83 (codes "a") (codes "txt")
a_txt = record {
  name_fits = omega arith;
  has_ext = omega arith;
  ext_fits = omega arith;
  name_plain = ((omega arith, omega arith, omega arith), tt);
  ext_plain = (
    (omega arith, omega arith, omega arith),
    ((omega arith, omega arith, omega arith), ((omega arith, omega arith, omega arith), tt)),
  );
}

fat_filename_match-to_short_example :
    (fat_filename_match (to_short (codes "a.txt")).0 (to_short (codes "a.txt")).1 (codes "A")
      ≡ true)
    ↔ (map upper (codes "a.txt") ≡ map upper (codes "A"))
fat_filename_match-to_short_example =
    fat_filename_match-to_short (codes "a") (codes "txt") (codes "A") a_txt (omega arith, tt)

up-down_example : up (down (codes "BIN") (codes "/USR")) ≡ codes "/USR"
up-down_example =
    up-down (codes "BIN") (codes "/USR") (omega arith)
      (omega arith, (omega arith, (omega arith, tt))) (inr (omega arith, omega arith)) (omega arith)

fat_find_file-First_example :
    let (p, f') = new_buffer volume in
    (o : Option (ℕ → ℕ)) × (fat_find_file 33 (codes "a.txt") volume ≡ some (o, free_buffer p f'))
    × First (codes "a.txt") (bump.bytes p f'.heap) volume o
fat_find_file-First_example =
    fat_find_file-First 33 (codes "a.txt") volume refl refl (omega arith) refl (omega arith)
      (omega arith)

abbrev empty_sector : ℕ → ℕ
empty_sector i = 0

fill_entry_fields_example :
    let bytes = fill_entry 3 (codes "a.txt") 0x20 5 700 empty_sector in
    let e = entry_at 3 bytes in
    (attributes e ≡ 0x20)
    × (first_cluster_low e ≡ 5)
    × (get32 e 28 ≡ 700)
    × ((j : ℕ) → (j < 32 * 3) ⊎ (32 * 3 + 32 ≤ j) → bytes j ≡ empty_sector j)
fill_entry_fields_example =
    fill_entry_fields 3 0x20 5 700 (codes "a.txt") empty_sector (omega arith) (omega arith)
      (omega arith)

-- A.TXT
fat_filename_match-listed_example :
    fat_filename_match
      (codes "A" ++ replicate 7 b' ')
      (codes "TXT" ++ replicate 0 b' ')
      (in_a_row (name_messages (codes "A" ++ replicate 7 b' ') (codes "TXT" ++ replicate 0 b' ')))
    ≡ true
fat_filename_match-listed_example =
    fat_filename_match-listed (codes "A") (codes "TXT") 7 0 ((omega arith, omega arith), tt)
      ((omega arith, omega arith), ((omega arith, omega arith), ((omega arith, omega arith), tt)))
      refl refl
