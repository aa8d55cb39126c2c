-- ===== src/Fat/Mount.antt =====
-- `fat_init` and `fat_list` of src/fs/fat.c.
use os_eojin.Base.{
  ℕ, zero, suc, ◌+◌, ◌*◌, ◌/◌, Bool, true, false, not, ◌||◌, ◌==◌, if◌then◌else◌, codes, List, [],
  ◌∷◌, ◌++◌, Option, none, some, get_or,
}
use os_eojin.Utils.{hex_to_ascii, strcpy}
use os_eojin.Fat.{
  Allocator, Bpb, Fat, u32, get16, get32, say, new_buffer, free_buffer, read_sector,
  fat_read_dir_sector,
}
use os_eojin.Fat.Dir.{entry_at, name_of, ext_of, attributes, is_volume_id, is_directory, after}

-- The fields of `fat_bpb_t` in the boot sector.
abbrev pub bpb_of : (ℕ → ℕ) → Bpb
bpb_of buffer = record {
  bytes_per_sector = get16 buffer 11;
  sectors_per_cluster = buffer 13;
  reserved_sectors = get16 buffer 14;
  fat_count = buffer 16;
  root_dir_entries = get16 buffer 17;
  fat_size_16 = get16 buffer 22;
}

-- A space is kept before what is left.
abbrev pub with_space : List ℕ → List ℕ
with_space [] = []
with_space (d ∷ s) = b' ' ∷ d ∷ s

-- An array without its closing spaces.
unfoldable pub trim_spaces : List ℕ → List ℕ
trim_spaces [] = []
trim_spaces (c ∷ s) = let rest = trim_spaces s in if c == b' ' then with_space rest else c ∷ rest

-- What is printed of the name.
abbrev pub name_messages : List ℕ → List ℕ → List (List ℕ)
name_messages name ext =
    let tail = trim_spaces ext in
    strcpy (trim_spaces name) ∷ (if get_or tail 0 0 == 0 then [] else codes "." ∷ strcpy tail ∷ [])

-- The line of an entry.
abbrev pub line_of : (ℕ → ℕ) → List (List ℕ)
line_of e =
    name_messages (name_of e) (ext_of e)
    ++ ((if is_directory e then codes "/" ∷ [] else [])
        ++ (codes "        " ∷ hex_to_ascii (get32 e 28) ∷ codes "\n" ∷ []))

-- The inner loop from entry `k` on: what it prints, and whether it came to the end mark.
unfoldable pub list_entries : (rounds k : ℕ) → (ℕ → ℕ) → List (List ℕ) × Bool
list_entries zero k buffer = ([], false)
list_entries (suc rounds) k buffer =
    let e = entry_at k buffer in
    let (lines, ended) = list_entries rounds (k + 1) buffer in
    if e 0 == 0
    then ([], true)
    else if (e 0 == 0xe5) || ((attributes e == 0x0f) || is_volume_id e)
    then (lines, ended)
    else (line_of e ++ lines, ended)

module _ {A : Allocator} where
  abbrev pub say_all : List (List ℕ) → Fat A → Fat A
  say_all messages f = record f { console = f.console ++ messages }

  abbrev pub end_or : Bool → Fat A → Option (Fat A) → Option (Fat A)
  end_or true f next = some f
  end_or false f next = next

  abbrev pub list_sector :
      ((ℕ → ℕ) → Fat A → Option (Fat A)) → Option (ℕ → ℕ) × Fat A → Option (Fat A)
  list_sector next (none, f) = some f
  list_sector next (some bytes, f) =
      let (lines, ended) = list_entries 16 0 bytes in
      let f' = say_all lines f in end_or ended f' (next bytes f')

  -- The loop over the sectors of the current directory from `i` on.
  unfoldable pub list_sectors : (fuel i : ℕ) → (ℕ → ℕ) → Fat A → Option (Fat A)
  list_sectors zero i buffer f = none
  list_sectors (suc fuel) i buffer f =
      list_sector (list_sectors fuel (i + 1)) (fat_read_dir_sector f.current_dir_cluster i buffer f)

  unfoldable pub fat_list : ℕ → Fat A → Option (Fat A)
  fat_list fuel f =
      let (p, f') = new_buffer f in
      let headed = say (codes "--------------------\n") (say (codes "Filename        Size\n") f') in
      let listed = after (free_buffer p) (list_sectors fuel 0 (A.bytes p f'.heap) headed) in
      if not f.is_fat_initialized
      then some (say (codes "File system not mounted. Run 'mount' first.\n") f)
      else if p == 0
      then some (say (codes "ls: Memory allocation failed\n") f')
      else listed

  -- One field with its name.
  abbrev pub say_field : List ℕ → ℕ → Fat A → Fat A
  say_field name value f = say (codes "\n") (say (hex_to_ascii value) (say name f))

  abbrev pub say_oem : (ℕ → ℕ) → Fat A → Fat A
  say_oem buffer f =
      let char : ℕ → List ℕ = λ i. strcpy (buffer (3 + i) ∷ []) in
      say (codes "\n") (
        say_all (char 0 ∷ char 1 ∷ char 2 ∷ char 3 ∷ char 4 ∷ char 5 ∷ char 6 ∷ char 7 ∷ [])
          (say (codes "OEM Name: ") f))

  -- `none` is the division by `bytes_per_sector` 0.
  unfoldable pub fat_init : Fat A → Option (Fat A)
  fat_init f =
      let (p, f') = new_buffer f in
      let buffer = read_sector 0 (A.bytes p f'.heap) f' in
      let info = bpb_of buffer in
      let titled =
        say_oem buffer (say (codes "---FAT16 Init ---\n") (record f' { fat_info = info })) in
      let told = say_field (codes "Root Dir Entries: ") info.root_dir_entries (
        say_field (codes "Reserved Sectors: ") info.reserved_sectors (
          say_field (codes "Sectors per Cluster: ") info.sectors_per_cluster
            (say_field (codes "Bytes per Sector: ") info.bytes_per_sector titled))) in
      let root = u32 (info.reserved_sectors + info.fat_count * info.fat_size_16) in
      let data_start = u32 (root + info.root_dir_entries * 32 / info.bytes_per_sector) in
      let laid_out : Fat A = record told {
        fat_start_sector = info.reserved_sectors;
        root_dir_sector = root;
        data_start_sector = data_start;
      } in
      let done = free_buffer p (say_field (codes "Data Start Sector: ") data_start laid_out) in
      if p == 0
      then some (say (codes "FAT: Memory allocation failed\n") f')
      else if info.bytes_per_sector == 0
      then none
      else some (record done { is_fat_initialized = true })
