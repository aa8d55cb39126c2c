-- ===== src/Fat.antt =====
-- src/fs/fat.c: the FAT16 file system: the allocation table, the sectors of a directory and the chains
-- of clusters. `kmalloc` and `kfree` are an interface: a client gives what the heap does. The
-- functions that do not test what `kmalloc` returns go on with it, as here. A buffer is its bytes; the
-- console holds the messages of fat.c alone.
pub mod Entry
pub mod Free
pub mod Chains
pub mod Name
pub mod NameLaws
pub mod Dir
pub mod Edit
pub mod Path
pub mod Route
pub mod Walk
pub mod Found
pub mod First
pub mod ReadOnly
pub mod Slot
pub mod Mount
pub mod Listing
mod Tests
use os_eojin.Base.{
  ℕ, zero, suc, ◌+◌, ◌-◌, ◌*◌, ◌/◌, ◌%◌, ◌^◌, Bool, true, false, not, ◌&&◌, ltb, leb, ◌==◌,
  if◌then◌else◌, codes, List, [], ◌∷◌, ◌++◌, Option, none, some,
}
use os_eojin.Ata.{Drive, ata_read_sector, ata_write_sector}

pub record Allocator : Type 1 where
  pub State : Type 0
  pub kmalloc : ℕ → State → ℕ × State
  pub kfree : ℕ → State → State
  -- the bytes behind a pointer
  pub bytes : ℕ → State → ℕ → ℕ

-- The fields of `fat_bpb_t` that fat.c uses.
pub record Bpb : Type 0 where
  pub bytes_per_sector : ℕ
  pub sectors_per_cluster : ℕ
  pub reserved_sectors : ℕ
  pub fat_count : ℕ
  pub root_dir_entries : ℕ
  pub fat_size_16 : ℕ

abbrev pub u16 : ℕ → ℕ
u16 n = n % 2 ^ 16

abbrev pub u32 : ℕ → ℕ
u32 n = n % 2 ^ 32

-- The buffer with one byte written.
abbrev pub set_byte : ℕ → ℕ → (ℕ → ℕ) → ℕ → ℕ
set_byte i v buffer k = if i == k then v % 2 ^ 8 else buffer k

-- `*(uint16_t*)&buffer[i]`
abbrev pub get16 : (ℕ → ℕ) → ℕ → ℕ
get16 buffer i = buffer i + 2 ^ 8 * buffer (i + 1)

abbrev pub set16 : ℕ → ℕ → (ℕ → ℕ) → ℕ → ℕ
set16 i v buffer = set_byte (i + 1) (v / 2 ^ 8) (set_byte i v buffer)

abbrev pub get32 : (ℕ → ℕ) → ℕ → ℕ
get32 buffer i = get16 buffer i + 2 ^ 16 * get16 buffer (i + 2)

-- The inner loop of `fat_allocate_cluster`, `rounds` entries from entry `j` of table sector `i` on.
unfoldable pub find_free : (rounds j i : ℕ) → (ℕ → ℕ) → Option ℕ
find_free zero j i buffer = none
find_free (suc rounds) j i buffer =
    let rest = find_free rounds (j + 1) i buffer in
    if ltb (u16 (i * 256 + j)) 2
    then rest
    else if get16 buffer (j * 2) == 0
    then some (u16 (i * 256 + j))
    else rest

-- The state of fat.c in a kernel with the heap `A`.
pub record Fat (A : Allocator) : Type 0 where
  pub fat_info : Bpb
  pub fat_start_sector : ℕ
  pub root_dir_sector : ℕ
  pub data_start_sector : ℕ
  pub current_dir_cluster : ℕ
  pub current_path : List ℕ
  pub is_fat_initialized : Bool
  pub drive : Drive
  pub heap : A.State
  pub console : List (List ℕ)

module _ {A : Allocator} where
  abbrev pub say : List ℕ → Fat A → Fat A
  say message f = record f { console = f.console ++ (message ∷ []) }

  -- `kmalloc(512)`
  abbrev pub new_buffer : Fat A → ℕ × Fat A
  new_buffer f = let (p, heap) = A.kmalloc 512 f.heap in (p, record f { heap = heap })

  abbrev pub free_buffer : ℕ → Fat A → Fat A
  free_buffer p f = record f { heap = A.kfree p f.heap }

  abbrev pub read_sector : ℕ → (ℕ → ℕ) → Fat A → ℕ → ℕ
  read_sector lba buffer f = ata_read_sector lba buffer f.drive

  abbrev pub write_sector : ℕ → (ℕ → ℕ) → Fat A → Fat A
  write_sector lba buffer f = record f { drive = ata_write_sector lba buffer f.drive }

  -- `fat_sector`
  abbrev pub sector_of : ℕ → Fat A → ℕ
  sector_of cluster f = u32 (f.fat_start_sector + cluster * 2 / 512)

  unfoldable pub fat_next_cluster : ℕ → Fat A → ℕ × Fat A
  fat_next_cluster cluster f =
      let (p, f') = new_buffer f in
      let buffer = read_sector (sector_of cluster f) (A.bytes p f'.heap) f' in
      (get16 buffer (cluster * 2 % 512), free_buffer p f')

  unfoldable pub fat_write_fat_entry : ℕ → ℕ → Fat A → Fat A
  fat_write_fat_entry cluster value f =
      let (p, f') = new_buffer f in
      let buffer = read_sector (sector_of cluster f) (A.bytes p f'.heap) f' in
      free_buffer p (write_sector (sector_of cluster f) (set16 (cluster * 2 % 512) value buffer) f')

  -- The outer loop, `rounds` sectors from sector `i` on: a timeout leaves the buffer as it was.
  unfoldable pub search_fat : (rounds i : ℕ) → (ℕ → ℕ) → Fat A → Option ℕ
  unfolding find_free
  search_fat zero i buffer f = none
  search_fat (suc rounds) i buffer f =
      let buffer' = read_sector (u32 (f.fat_start_sector + i)) buffer f in
      let rest = search_fat rounds (i + 1) buffer' f in
      elim (find_free 256 0 i buffer') [ some cluster ↦ some cluster | none ↦ rest ]

  abbrev pub claim : ℕ → Fat A → Option ℕ → ℕ × Fat A
  claim p f none = (0, free_buffer p f)
  claim p f (some cluster) = (cluster, free_buffer p (fat_write_fat_entry cluster 65535 f))

  -- The search reads the drive alone, so the write of the entry follows it.
  unfoldable pub fat_allocate_cluster : Fat A → ℕ × Fat A
  unfolding search_fat
  fat_allocate_cluster f =
      let (p, f') = new_buffer f in
      claim p f' (search_fat f.fat_info.fat_size_16 0 (A.bytes p f'.heap) f')

  -- In 32 bits, as the C code computes it: a cluster below 2 wraps around.
  unfoldable pub fat_lba_of_cluster : ℕ → Fat A → ℕ
  fat_lba_of_cluster cluster f =
      u32 (f.data_start_sector + u32 (cluster + 2 ^ 32 - 2) * f.fat_info.sectors_per_cluster)

  -- The steps of `fat_read_dir_sector` along the chain; `none` is its `return 0`.
  pub follow : (steps curr : ℕ) → Fat A → Option ℕ × Fat A
  follow zero curr f = (if leb 65528 curr then none else some curr, f)
  follow (suc steps) curr f =
      let (next, f') = fat_next_cluster curr f in
      let rest = follow steps next f' in if leb 65528 curr then (none, f) else rest

  abbrev pub sub_sector : ℕ → (ℕ → ℕ) → Option ℕ × Fat A → Option (ℕ → ℕ) × Fat A
  sub_sector offset buffer (none, f) = (none, f)
  sub_sector offset buffer (some curr, f) =
      (some (read_sector (u32 (fat_lba_of_cluster curr f + offset)) buffer f), f)

  -- The buffer that it fills, or `none` where it returns 0. With 0 bytes in a sector, or 0 sectors in a
  -- cluster, the C code divides by 0 and traps; the quotient is 0 here.
  unfoldable pub fat_read_dir_sector : ℕ → ℕ → (ℕ → ℕ) → Fat A → Option (ℕ → ℕ) × Fat A
  unfolding follow fat_lba_of_cluster
  fat_read_dir_sector start_cluster sector_idx buffer f =
      let root_dir_sectors = f.fat_info.root_dir_entries * 32 / f.fat_info.bytes_per_sector in
      let root = read_sector (u32 (f.root_dir_sector + sector_idx)) buffer f in
      let spc = f.fat_info.sectors_per_cluster in
      let chain = follow (sector_idx / spc) start_cluster f in
      if start_cluster == 0
      then (if leb root_dir_sectors sector_idx then none else some root, f)
      else sub_sector (sector_idx % spc) buffer chain

  -- The loop of `fat_free_cluster_chain`; `none` means that the fuel ran out.
  pub free_chain : (fuel curr : ℕ) → Fat A → Option (Fat A)
  free_chain zero curr f = none
  free_chain (suc fuel) curr f =
      let (next, f') = fat_next_cluster curr f in
      let rest = free_chain fuel next (fat_write_fat_entry curr 0 f') in
      if ltb curr 65528 then rest else some f

  pub fat_free_cluster_chain : (fuel cluster : ℕ) → Fat A → Option (Fat A)
  unfolding free_chain
  fat_free_cluster_chain fuel cluster f =
      if ltb cluster 2 then some f else free_chain fuel cluster f
