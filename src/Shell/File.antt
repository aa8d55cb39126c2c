-- ===== src/Shell/File.antt =====
-- The loops of cat and exec in src/kernel/kernel.c over a file: one sector of each cluster.
use os_eojin.Base.{
  ℕ, zero, suc, ◌+◌, ◌-◌, ◌&&◌, ltb, List, [], ◌∷◌, codes, Option, none, some, ◌==◌, if◌then◌else◌,
}
use os_eojin.Machine.{store_byte}
use os_eojin.Utils.{strcpy}
use os_eojin.Fat.{
  Allocator, Fat, get32, say, new_buffer, free_buffer, read_sector, fat_next_cluster,
  fat_lba_of_cluster,
}
use os_eojin.Fat.Dir.{first_cluster_low, fat_find_file, after}
use os_eojin.Fat.Edit.{bind}

abbrev pub file_size : (ℕ → ℕ) → ℕ
file_size e = get32 e 28

-- `for (int i = 0; i < copy_size; i++) ptr[i] = buf[i];` from index `i` on.
unfoldable pub copy_out : (rounds i ptr : ℕ) → (ℕ → ℕ) → (ℕ → ℕ) → ℕ → ℕ
copy_out zero i ptr buf mem = mem
copy_out (suc rounds) i ptr buf mem =
    copy_out rounds (i + 1) ptr buf (store_byte (ptr + i) (buf i) mem)

module _ {A : Allocator} where
  -- The loop of cat over one sector, with what is left of the size: `c[2]` holds one character.
  unfoldable pub print_bytes : (rounds i size : ℕ) → (ℕ → ℕ) → Fat A → ℕ × Fat A
  print_bytes zero i size buf f = (size, f)
  print_bytes (suc rounds) i size buf f =
      let rest = print_bytes rounds (i + 1) (size - 1) buf (say (strcpy (buf i ∷ [])) f) in
      if ltb 0 size then rest else (size, f)

  -- The outer loop of cat; `none` without fuel left.
  unfoldable pub print_file : (fuel cluster size : ℕ) → (ℕ → ℕ) → Fat A → Option (Fat A)
  print_file zero cluster size buf f = none
  print_file (suc fuel) cluster size buf f =
      let buf' = read_sector (fat_lba_of_cluster cluster f) buf f in
      let (size', f1) = print_bytes 512 0 size buf' f in
      let (next, f2) = fat_next_cluster cluster f1 in
      let rest = print_file fuel next size' buf' f2 in
      if ltb 0 size && ltb cluster 65528 then rest else some f

  abbrev pub print_found : (fuel : ℕ) → List ℕ → Option (ℕ → ℕ) × Fat A → Option (Fat A)
  print_found fuel filename (none, f) =
      some (say (codes "\n") (say filename (say (codes "File not found: ") f)))
  print_found fuel filename (some e, f) =
      let (p, f1) = new_buffer f in
      let printed = print_file fuel (first_cluster_low e) (file_size e) (A.bytes p f1.heap) f1 in
      if p == 0
      then some (say (codes "cat: Memory allocation failed\n") f1)
      else after (λ f2. free_buffer p (say (codes "\n") f2)) printed

  unfoldable pub cat : (fuel : ℕ) → List ℕ → Fat A → Option (Fat A)
  cat fuel filename f = bind (fat_find_file fuel filename f) (print_found fuel filename)

  -- The loop of exec over the file, into memory from `ptr` on; `none` without fuel left.
  unfoldable pub load_file :
      (fuel cluster size ptr : ℕ) → (buf mem : ℕ → ℕ) → Fat A → Option ((ℕ → ℕ) × Fat A)
  load_file zero cluster size ptr buf mem f = none
  load_file (suc fuel) cluster size ptr buf mem f =
      let buf' = read_sector (fat_lba_of_cluster cluster f) buf f in
      let copy_size = if ltb 512 size then 512 else size in
      let (next, f1) = fat_next_cluster cluster f in
      let rest =
        load_file fuel next (size - copy_size) (ptr + 512) buf' (copy_out copy_size 0 ptr buf' mem)
          f1 in
      if ltb 0 size && ltb cluster 65528 then rest else some (mem, f)
