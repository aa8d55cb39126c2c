-- ===== src/Fat/Edit.antt =====
-- The operations of src/fs/fat.c that change a directory: an entry created, a file or a directory
-- deleted. `none` means that the fuel of a loop ran out.
use os_eojin.Base.{
  ℕ, ◌*◌, Bool, true, false, not, ◌==◌, if◌then◌else◌, codes, List, Option, none, some,
}
use os_eojin.Fat.{
  Allocator, Fat, set_byte, say, new_buffer, free_buffer, write_sector, fat_free_cluster_chain,
}
use os_eojin.Fat.Name.{to_short, final_name}
use os_eojin.Fat.Dir.{
  entry_at, first_cluster_low, find_slot, find_used, find_file_entry, find_dir_entry, fill_entry,
  walk, sector_lba, after,
}

abbrev pub bind {ℓ κ} : {X : Type ℓ} {Y : Type κ} → Option X → (X → Option Y) → Option Y
bind none g = none
bind (some x) g = g x

module _ {A : Allocator} where
  abbrev full : ℕ → Fat A → Bool × Fat A
  full p f = (false, say (codes "Directory full or error.\n") (free_buffer p f))

  abbrev created : List ℕ → ℕ → ℕ → ℕ → ℕ → ℕ → (ℕ → ℕ) → ℕ × Fat A → Bool × Fat A
  created filename attr cluster size p k bytes (lba, f) =
      let f1 = free_buffer p (write_sector lba (fill_entry k filename attr cluster size bytes) f) in
      let (name, ext) = to_short filename in
      (true, say (codes "\n") (say (final_name name ext) (say (codes "Entry created: ") f1)))

  -- What follows the loop of `fat_create_entry`.
  abbrev pub create_at : List ℕ → ℕ → ℕ → ℕ → ℕ → Option (ℕ × ℕ × (ℕ → ℕ)) × Fat A → Bool × Fat A
  create_at filename attr cluster size p (none, f) = full p f
  create_at filename attr cluster size p (some (k, i, bytes), f) =
      created filename attr cluster size p k bytes (sector_lba i f)

  unfoldable pub fat_create_entry :
      (fuel : ℕ) → List ℕ → (attr cluster size : ℕ) → Fat A → Option (Bool × Fat A)
  fat_create_entry fuel filename attr cluster size f =
      let (p, f') = new_buffer f in
      let walked = walk (find_slot 16 0) fuel f.current_dir_cluster 0 (A.bytes p f'.heap) f' in
      if not f.is_fat_initialized
      then some (false, f)
      else after (create_at filename attr cluster size p) walked

  abbrev emptiness : ℕ → Option (Bool × ℕ × (ℕ → ℕ)) × Fat A → Bool × Fat A
  emptiness p (none, f) = (true, free_buffer p f)
  emptiness p (some (b, i, bytes), f) = (b, free_buffer p f)

  unfoldable pub fat_is_dir_empty : (fuel cluster : ℕ) → Fat A → Option (Bool × Fat A)
  fat_is_dir_empty fuel cluster f =
      let (p, f') = new_buffer f in
      let walked = walk (find_used 16 0) fuel cluster 0 (A.bytes p f'.heap) f' in
      if p == 0 then some (false, f') else after (emptiness p) walked

  -- The chain of the entry freed, the entry marked 0xE5 and written back to the sector `lba`.
  abbrev remove : ℕ → List ℕ → ℕ → ℕ → (ℕ → ℕ) → ℕ × Fat A → Option (Bool × Fat A)
  remove fuel message p k bytes (lba, f) =
      after
        (λ f1.
          (true, say message (free_buffer p (write_sector lba (set_byte (32 * k) 229 bytes) f1))))
        (fat_free_cluster_chain fuel (first_cluster_low (entry_at k bytes)) f)

  abbrev pub delete_file_at :
      ℕ → ℕ → Option (Option ℕ × ℕ × (ℕ → ℕ)) × Fat A → Option (Bool × Fat A)
  delete_file_at fuel p (none, f) = some (false, say (codes "File not found.\n") (free_buffer p f))
  delete_file_at fuel p (some (none, i, bytes), f) =
      some (false, free_buffer p (say (codes "Error: Is a directory.\n") f))
  delete_file_at fuel p (some (some k, i, bytes), f) =
      remove fuel (codes "File deleted.\n") p k bytes (sector_lba i f)

  unfoldable pub fat_delete_file : (fuel : ℕ) → List ℕ → Fat A → Option (Bool × Fat A)
  fat_delete_file fuel filename f =
      let (p, f') = new_buffer f in
      let walked =
        walk (find_file_entry 16 0 filename) fuel f.current_dir_cluster 0 (A.bytes p f'.heap) f' in
      if not f.is_fat_initialized then some (false, f) else bind walked (delete_file_at fuel p)

  abbrev delete_empty : ℕ → ℕ → ℕ → ℕ → (ℕ → ℕ) → Bool × Fat A → Option (Bool × Fat A)
  delete_empty fuel p k i bytes (false, f) =
      some (false, free_buffer p (say (codes "Error: Directory not empty.\n") f))
  delete_empty fuel p k i bytes (true, f) =
      remove fuel (codes "Directory deleted.\n") p k bytes (sector_lba i f)

  abbrev pub delete_dir_at : ℕ → ℕ → Option (Option ℕ × ℕ × (ℕ → ℕ)) × Fat A → Option (Bool × Fat A)
  delete_dir_at fuel p (none, f) =
      some (false, say (codes "Directory not found.\n") (free_buffer p f))
  delete_dir_at fuel p (some (none, i, bytes), f) =
      some (false, free_buffer p (say (codes "Error: Not a directory.\n") f))
  delete_dir_at fuel p (some (some k, i, bytes), f) =
      bind (fat_is_dir_empty fuel (first_cluster_low (entry_at k bytes)) f)
        (delete_empty fuel p k i bytes)

  unfoldable pub fat_delete_dir : (fuel : ℕ) → List ℕ → Fat A → Option (Bool × Fat A)
  fat_delete_dir fuel dirname f =
      let (p, f') = new_buffer f in
      let walked =
        walk (find_dir_entry 16 0 dirname) fuel f.current_dir_cluster 0 (A.bytes p f'.heap) f' in
      if not f.is_fat_initialized then some (false, f) else bind walked (delete_dir_at fuel p)
