-- ===== src/Fat/Name.antt =====
-- File names in src/fs/fat.c: the comparison of a directory entry's 8.3 name with an input, and the 8.3
-- name that `fat_create_entry` makes of an input. `temp[12]` and the other arrays are lists here: of a
-- name of 8 and 3 characters, the code writes the closing 0 one byte behind `temp`.
use os_eojin.Base.{
  ℕ, zero, suc, ◌-◌, Bool, true, false, not, ◌&&◌, ◌||◌, leb, ◌==◌, if◌then◌else◌, List, [], ◌∷◌,
  ◌++◌, get_or,
}

-- `if (c >= 'a' && c <= 'z') c -= 32;`
abbrev pub upper : ℕ → ℕ
upper c = if leb b'a' c && leb c b'z' then c - 32 else c

-- The characters before the first space, `rounds` at most.
unfoldable pub until_space : (rounds : ℕ) → List ℕ → List ℕ
until_space zero s = []
until_space (suc rounds) [] = []
until_space (suc rounds) (c ∷ s) =
    let rest = until_space rounds s in if c == b' ' then [] else c ∷ rest

-- `temp`
unfoldable pub dotted : List ℕ → List ℕ → List ℕ
unfolding until_space
dotted name ext =
    let tail = b'.' ∷ until_space 3 ext in
    until_space 8 name ++ (if get_or ext 0 0 == b' ' then [] else tail)

-- The loop that compares without regard to case, and the test behind it.
unfoldable pub same_name : List ℕ → List ℕ → Bool
same_name [] [] = true
same_name [] (d ∷ input) = d == 0
same_name (c ∷ temp) [] = c == 0
same_name (c ∷ temp) (d ∷ input) =
    let rest = same_name temp input in
    if (c == 0) || (d == 0)
    then (c == 0) && (d == 0)
    else if upper c == upper d
    then rest
    else false

unfoldable pub fat_filename_match : List ℕ → List ℕ → List ℕ → Bool
unfolding dotted same_name
fat_filename_match name ext input = same_name (dotted name ext) input

-- The loop of `fat_create_entry` that fills `name`, `j` places left, from an array of spaces.
unfoldable pub short_name : (j : ℕ) → List ℕ → List ℕ
short_name zero filename = []
short_name (suc j) [] = b' ' ∷ short_name j []
short_name (suc j) (c ∷ filename) =
    let rest = short_name j filename in
    let blank = short_name j [] in
    if not (c == 0) && not (c == b'.') then upper c ∷ rest else b' ' ∷ blank

-- What follows the first dot, if there is one.
unfoldable pub after_dot : List ℕ → List ℕ
after_dot [] = []
after_dot (c ∷ filename) =
    let rest = after_dot filename in if c == 0 then [] else if c == b'.' then filename else rest

-- The loop that fills `ext`.
unfoldable pub short_ext : (j : ℕ) → List ℕ → List ℕ
short_ext zero filename = []
short_ext (suc j) [] = b' ' ∷ short_ext j []
short_ext (suc j) (c ∷ filename) =
    let rest = short_ext j filename in
    let blank = short_ext j [] in if not (c == 0) then upper c ∷ rest else b' ' ∷ blank

-- `name` and `ext` of the new entry.
unfoldable pub to_short : List ℕ → List ℕ × List ℕ
unfolding short_name after_dot short_ext
to_short filename = (short_name 8 filename, short_ext 3 (after_dot filename))

-- The bytes that are no spaces: the loops that build `final_name`.
pub no_spaces : List ℕ → List ℕ
no_spaces [] = []
no_spaces (c ∷ s) = let rest = no_spaces s in if c == b' ' then rest else c ∷ rest

-- `final_name`, up to its first 0 the text that is printed.
pub final_name : List ℕ → List ℕ → List ℕ
unfolding no_spaces
final_name name ext =
    let tail = b'.' ∷ no_spaces ext in
    no_spaces name ++ (if get_or ext 0 0 == b' ' then [] else tail)
