-- ===== src/Fat/Path.antt =====
-- `fat_change_dir` of src/fs/fat.c, and the path string that it keeps beside the current cluster. The
-- path is its bytes before the closing 0.
use os_eojin.Base.{
  ℕ, zero, suc, ◌+◌, ◌-◌, Bool, false, not, ◌&&◌, ltb, ◌==◌, if◌then◌else◌, codes, List, [], ◌∷◌,
  ◌++◌, Option, none, some, length, get_or, take,
}
use os_eojin.Base.Int.{ℤ, pos, negsuc}
use os_eojin.Utils.{strcmp, strcpy}
use os_eojin.Fat.{Allocator, Fat, say}
use os_eojin.Fat.Dir.{fat_find_file, name_of, first_cluster_low, is_directory, after}

-- The loop for "..": from index `i - 1` down, the path is cut at the first '/'.
unfoldable pub cut_last : (i : ℕ) → List ℕ → List ℕ
cut_last zero path = path
cut_last (suc i) path =
    let rest = cut_last i path in
    if get_or path i 0 == b'/' then (if i == 0 then take 1 path else take i path) else rest

abbrev pub up : List ℕ → List ℕ
up path = if ltb 1 (length path) then cut_last (length path) path else path

-- The loop that ends a name at its trailing spaces.
unfoldable pub trim : (k : ℕ) → List ℕ → List ℕ
trim zero name = []
trim (suc k) name =
    let rest = trim k name in if get_or name k 0 == b' ' then rest else take (suc k) name

-- A name behind the path, where 256 bytes hold the new path.
abbrev pub down : List ℕ → List ℕ → List ℕ
down real_name path =
    let len = length path in
    let slash = ltb 1 len && not (get_or path (len - 1) 0 == b'/') in
    if ltb (len + length real_name + 2) 256
    then path ++ ((if slash then b'/' ∷ [] else []) ++ real_name)
    else path

abbrev is_zero : ℤ → Bool
is_zero (pos n) = n == 0
is_zero (negsuc n) = false

unfoldable pub new_path : List ℕ → List ℕ → List ℕ → List ℕ
new_path dirname name path =
    if is_zero (strcmp dirname (codes ".."))
    then up path
    else if is_zero (strcmp dirname (codes "."))
    then path
    else down (strcpy (trim 8 name)) path

module _ {A : Allocator} where
  abbrev pub enter : List ℕ → Option (ℕ → ℕ) × Fat A → Fat A
  enter dirname (none, f) = say (codes "Directory not found.\n") f
  enter dirname (some e, f) =
      let f' : Fat A = record (say (codes "Changed directory.\n") f) {
        current_dir_cluster = first_cluster_low e;
        current_path = new_path dirname (name_of e) f.current_path;
      } in
      if is_directory e then f' else say (codes "Not a directory.\n") f

  unfoldable pub fat_change_dir : (fuel : ℕ) → List ℕ → Fat A → Option (Fat A)
  fat_change_dir fuel dirname f =
      let changed = after (enter dirname) (fat_find_file fuel dirname f) in
      if not f.is_fat_initialized
      then some (say (codes "File system not mounted. Run 'mount' first.\n") f)
      else changed
