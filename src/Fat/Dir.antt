-- ===== src/Fat/Dir.antt =====
-- Directories in src/fs/fat.c: a sector holds 16 entries of 32 bytes. The loops over the sectors of a
-- directory end where `fat_read_dir_sector` returns 0; a chain of clusters may be a cycle, so they run
-- on fuel, and `none` means that it ran out.

use os_eojin.Base.{
  ℕ, zero, suc, ◌+◌, ◌*◌, ◌/◌, ◌%◌, ◌^◌, Bool, true, false, not, ◌&&◌, ◌||◌, ◌==◌, if◌then◌else◌,
  codes, List, [], ◌∷◌, Option, none, some,
}
use os_eojin.Fat.{
  Allocator, Fat, u32, set_byte, get16, set16, say, new_buffer, free_buffer, fat_next_cluster,
  fat_lba_of_cluster, fat_read_dir_sector,
}
use os_eojin.Fat.Name.{fat_filename_match, to_short}

-- `entry[k]` of a sector, and fields of an entry.
abbrev pub entry_at : ℕ → (ℕ → ℕ) → ℕ → ℕ
entry_at k buffer i = buffer (32 * k + i)

abbrev pub bytes_of : ℕ → ℕ → (ℕ → ℕ) → List ℕ
bytes_of zero at buffer = []
bytes_of (suc n) at buffer = buffer at ∷ bytes_of n (at + 1) buffer

abbrev pub name_of : (ℕ → ℕ) → List ℕ
name_of e = bytes_of 8 0 e

abbrev pub ext_of : (ℕ → ℕ) → List ℕ
ext_of e = bytes_of 3 8 e

abbrev pub attributes : (ℕ → ℕ) → ℕ
attributes e = e 11

abbrev pub first_cluster_low : (ℕ → ℕ) → ℕ
first_cluster_low e = get16 e 26

-- `attributes & ATTR_VOLUME_ID`, `attributes & ATTR_DIRECTORY`
abbrev pub is_volume_id : (ℕ → ℕ) → Bool
is_volume_id e = not (attributes e / 8 % 2 == 0)

abbrev pub is_directory : (ℕ → ℕ) → Bool
is_directory e = not (attributes e / 16 % 2 == 0)

-- The inner loop of `fat_find_file` from entry `k` on: `some none` at the end mark, `some (some k)` at
-- a match.
unfoldable pub find_entry : (rounds k : ℕ) → List ℕ → (ℕ → ℕ) → Option (Option ℕ)
find_entry zero k filename buffer = none
find_entry (suc rounds) k filename buffer =
    let e = entry_at k buffer in
    let rest = find_entry rounds (k + 1) filename buffer in
    if e 0 == 0
    then some none
    else if e 0 == 229
    then rest
    else if (attributes e == 15) || is_volume_id e
    then rest
    else if fat_filename_match (name_of e) (ext_of e) filename
    then some (some k)
    else rest

-- The inner loop of `fat_create_entry`.
unfoldable pub find_slot : (rounds k : ℕ) → (ℕ → ℕ) → Option ℕ
find_slot zero k buffer = none
find_slot (suc rounds) k buffer =
    let e = entry_at k buffer in
    let rest = find_slot rounds (k + 1) buffer in
    if (e 0 == 0) || (e 0 == 229) then some k else rest

-- The inner loop of `fat_is_dir_empty`: the result where it returns.
unfoldable pub find_used : (rounds k : ℕ) → (ℕ → ℕ) → Option Bool
find_used zero k buffer = none
find_used (suc rounds) k buffer =
    let e = entry_at k buffer in
    let rest = find_used rounds (k + 1) buffer in
    if e 0 == 0
    then some true
    else if e 0 == 229
    then rest
    else if (e 0 == b'.') && ((e 1 == b' ') || ((e 1 == b'.') && (e 2 == b' ')))
    then rest
    else some false

-- The inner loops of `fat_delete_file` and `fat_delete_dir`: `some none` where the entry has the wrong
-- kind. The end mark leaves the inner loop alone.
unfoldable pub find_file_entry : (rounds k : ℕ) → List ℕ → (ℕ → ℕ) → Option (Option ℕ)
find_file_entry zero k filename buffer = none
find_file_entry (suc rounds) k filename buffer =
    let e = entry_at k buffer in
    let rest = find_file_entry rounds (k + 1) filename buffer in
    if e 0 == 0
    then none
    else if e 0 == 229
    then rest
    else if is_volume_id e
    then rest
    else if fat_filename_match (name_of e) (ext_of e) filename
    then (if is_directory e then some none else some (some k))
    else rest

unfoldable pub find_dir_entry : (rounds k : ℕ) → List ℕ → (ℕ → ℕ) → Option (Option ℕ)
find_dir_entry zero k dirname buffer = none
find_dir_entry (suc rounds) k dirname buffer =
    let e = entry_at k buffer in
    let rest = find_dir_entry rounds (k + 1) dirname buffer in
    if e 0 == 0
    then none
    else if e 0 == 229
    then rest
    else if fat_filename_match (name_of e) (ext_of e) dirname
    then (if not (is_directory e) then some none else some (some k))
    else rest

-- `memcpy` of a list of bytes into the buffer.
abbrev pub set_bytes : ℕ → List ℕ → (ℕ → ℕ) → ℕ → ℕ
set_bytes at [] buffer = buffer
set_bytes at (c ∷ s) buffer = set_bytes (at + 1) s (set_byte at c buffer)

-- The fields that `fat_create_entry` sets in entry `k`; the others keep what the slot held.
unfoldable pub fill_entry : ℕ → List ℕ → ℕ → ℕ → ℕ → (ℕ → ℕ) → ℕ → ℕ
fill_entry k filename attr cluster size buffer =
    let (name, ext) = to_short filename in
    let at = 32 * k in
    let named = set_bytes (at + 8) ext (set_bytes at name buffer) in
    let dated =
      set16 (at + 16) 0
        (set16 (at + 14) 0 (set_byte (at + 12) 0 (set_byte (at + 11) attr named))) in
    set16 (at + 30) (size / 2 ^ 16)
      (set16 (at + 28) size (set16 (at + 26) cluster (set16 (at + 20) 0 dated)))

-- The rest of an operation, behind a loop that has fuel.
abbrev pub after {ℓ κ} : {X : Type ℓ} {Y : Type κ} → (X → Y) → Option X → Option Y
after g none = none
after g (some x) = some (g x)

module _ {A : Allocator} where
  -- What a sector leads to: the next one, or the end of the loop.
  abbrev pub on_scan {ℓ} :
      {X : Type ℓ}
      → ℕ
      → (ℕ → ℕ)
      → Option (Option (X × ℕ × (ℕ → ℕ)) × Fat A)
      → Option X
      → Fat A
      → Option (Option (X × ℕ × (ℕ → ℕ)) × Fat A)
  on_scan i bytes next none f = next
  on_scan i bytes next (some x) f = some (some (x, i, bytes), f)

  abbrev pub on_sector {ℓ} :
      {X : Type ℓ} (scan : (ℕ → ℕ) → Option X)
      → ℕ
      → ((ℕ → ℕ) → Option (Option (X × ℕ × (ℕ → ℕ)) × Fat A))
      → Option (ℕ → ℕ)
      → Fat A
      → Option (Option (X × ℕ × (ℕ → ℕ)) × Fat A)
  on_sector scan i next none f = some (none, f)
  on_sector scan i next (some bytes) f = on_scan i bytes (next bytes) (scan bytes) f

  -- The sectors of a directory from `i` on, up to the first in which `scan` decides: its result, with
  -- the sector's index and bytes.
  unfoldable pub walk {ℓ} :
      {X : Type ℓ} (scan : (ℕ → ℕ) → Option X) (fuel cluster i : ℕ)
      → (ℕ → ℕ)
      → Fat A
      → Option (Option (X × ℕ × (ℕ → ℕ)) × Fat A)
  walk scan zero cluster i buffer f = none
  walk scan (suc fuel) cluster i buffer f =
      let (sector, f') = fat_read_dir_sector cluster i buffer f in
      on_sector scan i (λ bytes. walk scan fuel cluster (i + 1) bytes f') sector f'

  -- The sector to write back: in a subdirectory the chain is followed again, without a test for its end.
  pub step_on : (steps curr : ℕ) → Fat A → ℕ × Fat A
  step_on zero curr f = (curr, f)
  step_on (suc steps) curr f = let (next, f') = fat_next_cluster curr f in step_on steps next f'

  pub sector_lba : ℕ → Fat A → ℕ × Fat A
  unfolding step_on
  sector_lba sector_idx f =
      let spc = f.fat_info.sectors_per_cluster in
      let (curr, f') = step_on (sector_idx / spc) f.current_dir_cluster f in
      if f.current_dir_cluster == 0
      then (u32 (f.root_dir_sector + sector_idx), f)
      else (u32 (fat_lba_of_cluster curr f' + sector_idx % spc), f')

  -- The entry that `fat_find_file` copies out, or `none` where it returns 0.
  abbrev pub found_entry : ℕ → Option (Option ℕ × ℕ × (ℕ → ℕ)) × Fat A → Option (ℕ → ℕ) × Fat A
  found_entry p (none, f) = (none, free_buffer p f)
  found_entry p (some (none, i, bytes), f) = (none, free_buffer p f)
  found_entry p (some (some k, i, bytes), f) = (some (entry_at k bytes), free_buffer p f)

  unfoldable pub fat_find_file : ℕ → List ℕ → Fat A → Option (Option (ℕ → ℕ) × Fat A)
  fat_find_file fuel filename f =
      let (p, f') = new_buffer f in
      let walked =
        walk (find_entry 16 0 filename) fuel f.current_dir_cluster 0 (A.bytes p f'.heap) f' in
      if not f.is_fat_initialized
      then some (none, say (codes "File system not mounted. Run 'mount' first.\n") f)
      else if p == 0
      then some (none, f')
      else after (found_entry p) walked
