-- ===== src/Shell/Dots.antt =====
-- The directory that mkdir of src/kernel/kernel.c makes: empty, and `..` leads back.
use os_eojin.Base.{
  ℕ, suc, ◌%◌, ◌^◌, ◌<◌, ◌≡◌, ◌≢◌, refl, true, ltb, if◌then◌else◌, codes, some, arith, ◌∙◌, ap,
  List, ==_ne, ◌==◌, sym, subst, Option,
}
use os_eojin.Fat.{
  Allocator, Fat, fat_allocate_cluster, fat_lba_of_cluster, new_buffer, free_buffer, write_sector,
  read_sector,
}
use os_eojin.Fat.Name.{fat_filename_match}
use os_eojin.Fat.Dir.{
  entry_at, find_used, find_entry, first_cluster_low, is_directory, fat_find_file, walk, after,
  found_entry,
}
use os_eojin.Fat.Edit.{fat_create_entry, fat_is_dir_empty}
use os_eojin.Fat.Path.{enter, fat_change_dir}
use os_eojin.Fat.Walk.{past_guard, past_guards}
use os_eojin.Fat.First.{ata_read_sector-written, walk-first}
use os_eojin.Fat.Entry.{fat_lba_of_cluster_cong}
use os_eojin.Shell.Directory.{
  attr_directory, dot_entry, new_directory, said_created, make_in, mkdir,
}

-- A buffer into which the new sector was read.
module _ (c parent : ℕ) (bytes buffer : ℕ → ℕ) where
  abbrev pub read_back : ℕ → ℕ
  read_back k = if ltb k 512 then new_directory c parent bytes k % 2 ^ 8 else buffer k

  find_used-read_back : find_used 16 0 read_back ≡ some true
  unfolding new_directory dot_entry find_used
  find_used-read_back = refl

  find_entry-read_back : find_entry 16 0 (codes "..") read_back ≡ some (some 1)
  unfolding new_directory dot_entry find_entry fat_filename_match
  find_entry-read_back = refl

  is_directory-read_back : is_directory (entry_at 1 read_back) ≡ true
  unfolding new_directory dot_entry
  is_directory-read_back = refl

  first_cluster_low-read_back : parent < 2 ^ 16 → first_cluster_low (entry_at 1 read_back) ≡ parent
  unfolding new_directory dot_entry
  first_cluster_low-read_back small = ground arith

module _ {A : Allocator} (c : ℕ) (bytes : ℕ → ℕ) (f : Fat A) (ne : c ≢ 0) (low : c < 65528)
    (small : f.current_dir_cluster < 2 ^ 16) (near : fat_lba_of_cluster c f < 2 ^ 28)
    (ready : f.drive.ready ≡ true) where
  abbrev pub made : Fat A
  made = write_sector (fat_lba_of_cluster c f) (new_directory c f.current_dir_cluster bytes) f

  -- The same volume after an allocation, or in another directory.
  abbrev pub made_at : A.State → ℕ → Fat A
  made_at heap cluster = record made { heap = heap; current_dir_cluster = cluster }

  same_lba :
      (heap : A.State) (cluster : ℕ)
      → fat_lba_of_cluster c (made_at heap cluster) ≡ fat_lba_of_cluster c f
  same_lba heap cluster = fat_lba_of_cluster_cong c (made_at heap cluster) f refl refl

  read_sector-made :
      (heap : A.State) (cluster : ℕ) (buffer : ℕ → ℕ)
      → read_sector (fat_lba_of_cluster c (made_at heap cluster)) buffer (made_at heap cluster)
        ≡ read_back c f.current_dir_cluster bytes buffer
  read_sector-made heap cluster buffer =
      ap (λ lba. read_sector lba buffer made) (same_lba heap cluster)
      ∙ ata_read_sector-written (fat_lba_of_cluster c f)
          (new_directory c f.current_dir_cluster bytes) buffer f.drive near ready

  walk-made {ℓ} :
      {X : Type ℓ} (scan : (ℕ → ℕ) → Option X) (x : X) (fuel : ℕ) (heap : A.State) (cluster : ℕ)
      (buffer : ℕ → ℕ)
      → scan (read_back c f.current_dir_cluster bytes buffer) ≡ some x
      → walk scan (suc fuel) c 0 buffer (made_at heap cluster)
        ≡ some (some (x, 0, read_back c f.current_dir_cluster bytes buffer), made_at heap cluster)
  walk-made scan x fuel heap cluster buffer decides =
      let read = read_sector-made heap cluster buffer in
      walk-first scan x fuel c buffer (made_at heap cluster) ne low
        (subst (λ n. n < 2 ^ 32) (sym (same_lba heap cluster)) (omega (arith, near)))
        (ap scan read ∙ decides)
      ∙ ap (λ b. some (some (x, 0, b), made_at heap cluster)) read

  abbrev pub outside : A.State → Fat A
  outside heap = made_at heap f.current_dir_cluster

  abbrev pub inside : A.State → Fat A
  inside heap = made_at heap c

  pub fat_is_dir_empty-made :
      (heap : A.State) (fuel : ℕ)
      → (new_buffer (outside heap)).0 ≢ 0
      → fat_is_dir_empty (suc fuel) c (outside heap)
        ≡ some (true, free_buffer (new_buffer (outside heap)).0 (new_buffer (outside heap)).1)
  unfolding fat_is_dir_empty
  fat_is_dir_empty-made heap fuel got =
      let (p, f1) = new_buffer (outside heap) in
      rw
        (
          ==_ne p 0 got,
          walk-made (find_used 16 0) true fuel f1.heap f.current_dir_cluster (A.bytes p f1.heap)
              (find_used-read_back c f.current_dir_cluster bytes (A.bytes p f1.heap)),
        )
        refl

  fat_find_file-made :
      (heap : A.State) (fuel : ℕ)
      → (new_buffer (inside heap)).0 ≢ 0
      → f.is_fat_initialized ≡ true
      → let (p, f1) = new_buffer (inside heap) in
        fat_find_file (suc fuel) (codes "..") (inside heap)
        ≡ some (
          some (entry_at 1 (read_back c f.current_dir_cluster bytes (A.bytes p f1.heap))),
          free_buffer p f1,
        )
  unfolding fat_find_file
  fat_find_file-made heap fuel got mounted =
      let (p, f1) = new_buffer (inside heap) in
      past_guards _ _ _ f.is_fat_initialized (p == 0) mounted (==_ne p 0 got)
      ∙ ap (after (found_entry p)) (
          walk-made (find_entry 16 0 (codes "..")) (some 1) fuel f1.heap c (A.bytes p f1.heap)
            (find_entry-read_back c f.current_dir_cluster bytes (A.bytes p f1.heap)))

  pub fat_change_dir-made :
      (heap : A.State) (fuel : ℕ)
      → (new_buffer (inside heap)).0 ≢ 0
      → f.is_fat_initialized ≡ true
      → (f' : Fat A) × (fat_change_dir (suc fuel) (codes "..") (inside heap) ≡ some f')
        × (f'.current_dir_cluster ≡ f.current_dir_cluster)
  unfolding fat_change_dir
  fat_change_dir-made heap fuel got mounted =
      let (p, f1) = new_buffer (inside heap) in
      let b = A.bytes p f1.heap in
      let e = entry_at 1 (read_back c f.current_dir_cluster bytes b) in
      (
        enter (codes "..") (some e, free_buffer p f1),
        past_guard _ _ f.is_fat_initialized mounted
            ∙ ap (after (enter (codes ".."))) (fat_find_file-made heap fuel got mounted),
        rw (is_directory-read_back c f.current_dir_cluster bytes b)
            (first_cluster_low-read_back c f.current_dir_cluster bytes b small),
      )

module _ {A : Allocator} where
  -- On a mounted volume with sectors in its clusters and a drive that answers, where fat_allocate_cluster gives mkdir a cluster
  -- below 65528 whose sector has a number of 28 bits, and buffers that are not null: before mkdir
  -- puts an entry into the current directory, the cluster's sector is a directory that fat_is_dir_empty
  -- finds empty, and from which cd to `..` leads back to the current directory.
  pub mkdir-made :
      (fuel n : ℕ) (name : List ℕ) (c : ℕ) (f f0 : Fat A)
      → fat_allocate_cluster f ≡ (c, f0)
      → c ≢ 0
      → c < 65528
      → f0.current_dir_cluster < 2 ^ 16
      → fat_lba_of_cluster c f0 < 2 ^ 28
      → f0.drive.ready ≡ true
      → f0.is_fat_initialized ≡ true
      → 0 < f0.fat_info.sectors_per_cluster
      → (A.kmalloc 512 (A.kfree (new_buffer f0).0 (new_buffer f0).1.heap)).0 ≢ 0
      → (f2 f3 f4 : Fat A) × (mkdir fuel name f
          ≡ after said_created (fat_create_entry fuel name attr_directory c 0 f2))
        × (fat_is_dir_empty (suc n) c f2 ≡ some (true, f3))
        × (fat_change_dir (suc n) (codes "..") (record f2 { current_dir_cluster = c }) ≡ some f4)
        × (f2.current_dir_cluster ≡ f0.current_dir_cluster)
        × (f4.current_dir_cluster ≡ f0.current_dir_cluster)
  unfolding mkdir
  mkdir-made fuel n name c f f0 e ne low small near ready mounted sectors got =
      let (p, f1) = new_buffer f0 in
      let bytes = A.bytes p f1.heap in
      let near1 = subst (λ lba. lba < 2 ^ 28) (fat_lba_of_cluster_cong c f0 f1 refl refl) near in
      let heap = A.kfree p f1.heap in
      let (f4, cd, back) =
        fat_change_dir-made c bytes f1 ne low small near1 ready heap n got mounted in
      let (p', f') = new_buffer (outside c bytes f1 ne low small near1 ready heap) in
      (
        outside c bytes f1 ne low small near1 ready heap,
        free_buffer p' f',
        f4,
        ap (make_in fuel name) e ∙ rw (==_ne c 0 ne) refl,
        fat_is_dir_empty-made c bytes f1 ne low small near1 ready heap n got,
        cd,
        refl,
        back,
      )
