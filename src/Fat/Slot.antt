-- ===== src/Fat/Slot.antt =====
-- The directory entry that `fat_create_entry` of src/fs/fat.c writes, read back by its fields.
use os_eojin.Base.{
  ℕ, zero, suc, ◌+◌, ◌*◌, ◌/◌, ◌^◌, ◌<◌, ◌≤◌, ◌≡◌, refl, not, ◌&&◌, ◌==◌, List, [], ◌∷◌, length,
  arith, ap, ap₂, sym, ◌∙◌, All, ◌⊎◌, Bool-cases, inl, inr,
}
use os_eojin.Fat.{get32, set16, set_byte}
use os_eojin.Fat.Name.{short_name, short_ext, after_dot, to_short}
use os_eojin.Fat.Dir.{
  entry_at, bytes_of, name_of, ext_of, attributes, first_cluster_low, set_bytes, fill_entry,
}

abbrev pub IsByte : ℕ → Type 0
IsByte c = c < 2 ^ 8

pub set_bytes_outside :
    (at : ℕ) (s : List ℕ) (buffer : ℕ → ℕ) (j : ℕ)
    → (j < at) ⊎ (at + length s ≤ j)
    → set_bytes at s buffer j ≡ buffer j
set_bytes_outside at [] buffer j out = refl
set_bytes_outside at (c ∷ s) buffer j (inl low) =
    set_bytes_outside (at + 1) s (set_byte at c buffer) j (inl (omega arith)) ∙ ground arith
set_bytes_outside at (c ∷ s) buffer j (inr high) =
    set_bytes_outside (at + 1) s (set_byte at c buffer) j (inr (omega arith)) ∙ ground arith

bytes_of-set_bytes :
    (at : ℕ) (s : List ℕ) (buffer : ℕ → ℕ)
    → All IsByte s
    → bytes_of (length s) at (set_bytes at s buffer) ≡ s
bytes_of-set_bytes at [] buffer bytes = refl
bytes_of-set_bytes at (c ∷ s) buffer bytes =
    ap₂ (λ x xs. x ∷ xs)
      (set_bytes_outside (at + 1) s (set_byte at c buffer) at (inl (omega arith))
        ∙ ground (arith, bytes.0))
      (bytes_of-set_bytes (at + 1) s (set_byte at c buffer) bytes.1)

length-short_name : (j : ℕ) (s : List ℕ) → length (short_name j s) ≡ j
unfolding short_name
length-short_name zero s = refl
length-short_name (suc j) [] = ap suc (length-short_name j [])
length-short_name (suc j) (c ∷ s) =
    let full = length-short_name j s in
    let blank = length-short_name j [] in ground (arith, full, blank)

length-short_ext : (j : ℕ) (s : List ℕ) → length (short_ext j s) ≡ j
unfolding short_ext
length-short_ext zero s = refl
length-short_ext (suc j) [] = ap suc (length-short_ext j [])
length-short_ext (suc j) (c ∷ s) =
    let full = length-short_ext j s in
    let blank = length-short_ext j [] in ground (arith, full, blank)

-- Where attributes, cluster and size fit their fields, the entry that `fat_create_entry` writes holds
-- them, and no byte outside this entry changes.
pub fill_entry_fields :
    (k attr cluster size : ℕ) (filename : List ℕ) (buffer : ℕ → ℕ)
    → attr < 2 ^ 8
    → cluster < 2 ^ 16
    → size < 2 ^ 32
    → let bytes = fill_entry k filename attr cluster size buffer in
      let e = entry_at k bytes in
      (attributes e ≡ attr)
      × (first_cluster_low e ≡ cluster)
      × (get32 e 28 ≡ size)
      × ((j : ℕ) → (j < 32 * k) ⊎ (32 * k + 32 ≤ j) → bytes j ≡ buffer j)
unfolding fill_entry to_short
fill_entry_fields k attr cluster size filename buffer small small' small'' =
    let name = length-short_name 8 filename in
    let ext = length-short_ext 3 (after_dot filename) in
    (
      ground arith,
      ground arith,
      ground arith,
      λ j out. elim out [
        | inl low ↦
            let below = set_bytes_outside (32 * k) (short_name 8 filename) buffer j (inl low) in
            let below' =
              set_bytes_outside (32 * k + 8) (short_ext 3 (after_dot filename))
                (set_bytes (32 * k) (short_name 8 filename) buffer) j (inl (omega arith)) in
            ground (arith, below, below')
        | inr high ↦
            let above =
              set_bytes_outside (32 * k) (short_name 8 filename) buffer j
                (inr (omega (arith, name))) in
            let above' =
              set_bytes_outside (32 * k + 8) (short_ext 3 (after_dot filename))
                (set_bytes (32 * k) (short_name 8 filename) buffer) j (inr (omega (arith, ext))) in
            ground (arith, above, above')
      ],
    )

-- Bytes read at two places that agree.
bytes_of-agree :
    (n a b : ℕ) (f g : ℕ → ℕ)
    → ((i : ℕ) → i < n → f (a + i) ≡ g (b + i))
    → bytes_of n a f ≡ bytes_of n b g
bytes_of-agree zero a b f g same = refl
bytes_of-agree (suc n) a b f g same =
    ap₂ (λ x xs. x ∷ xs) (ap f (omega arith) ∙ same 0 (omega arith) ∙ ap g (omega arith))
      (bytes_of-agree n (a + 1) (b + 1) f g
        (λ i less. ap f (omega arith) ∙ same (suc i) (omega arith) ∙ ap g (omega arith)))

short_name-IsByte : (j : ℕ) (s : List ℕ) → All IsByte s → All IsByte (short_name j s)
unfolding short_name
short_name-IsByte zero s bytes = tt
short_name-IsByte (suc j) [] bytes = (omega arith, short_name-IsByte j [] tt)
short_name-IsByte (suc j) (c ∷ s) bytes = elim (Bool-cases (not (c == 0) && not (c == b'.'))) [
  | inl copied ↦ rw copied (ground (arith, bytes.0), short_name-IsByte j s bytes.1)
  | inr ended ↦ rw ended (omega arith, short_name-IsByte j [] tt)
]

short_ext-IsByte : (j : ℕ) (s : List ℕ) → All IsByte s → All IsByte (short_ext j s)
unfolding short_ext
short_ext-IsByte zero s bytes = tt
short_ext-IsByte (suc j) [] bytes = (omega arith, short_ext-IsByte j [] tt)
short_ext-IsByte (suc j) (c ∷ s) bytes = elim (Bool-cases (not (c == 0))) [
  | inl copied ↦ rw copied (ground (arith, bytes.0), short_ext-IsByte j s bytes.1)
  | inr ended ↦ rw ended (omega arith, short_ext-IsByte j [] tt)
]

after_dot-IsByte : (s : List ℕ) → All IsByte s → All IsByte (after_dot s)
unfolding after_dot
after_dot-IsByte [] bytes = tt
after_dot-IsByte (c ∷ s) bytes = elim (Bool-cases (c == 0)) [
  | inl ended ↦ rw ended tt
  | inr some ↦ elim (Bool-cases (c == b'.')) [
    | inl dot ↦ rw (some, dot) bytes.1
    | inr other ↦ rw (some, other) (after_dot-IsByte s bytes.1)
  ]
]

-- The fields behind the name, written over `named`, leave the name.
fields_behind :
    (at attr cluster size : ℕ) (named : ℕ → ℕ) (j : ℕ)
    → j < at + 11
    → set16
        (at + 30)
        (size / 2 ^ 16)
        (set16 (at + 28) size (
          set16 (at + 26) cluster (
            set16 (at + 20) 0 (
              set16
                (at + 16)
                0
                (set16 (at + 14) 0 (set_byte (at + 12) 0 (set_byte (at + 11) attr named)))))))
        j
      ≡ named j
fields_behind at attr cluster size named j less = ground arith

-- The entry that `fat_create_entry` writes for a name of bytes holds the 8.3 form of that name.
pub fill_entry_name :
    (k attr cluster size : ℕ) (filename : List ℕ) (buffer : ℕ → ℕ)
    → All IsByte filename
    → let e = entry_at k (fill_entry k filename attr cluster size buffer) in
      (name_of e ≡ (to_short filename).0) × (ext_of e ≡ (to_short filename).1)
unfolding fill_entry to_short
fill_entry_name k attr cluster size filename buffer bytes =
    let name = short_name 8 filename in
    let ext = short_ext 3 (after_dot filename) in
    let named = set_bytes (32 * k) name buffer in
    let both = set_bytes (32 * k + 8) ext named in
    let e = entry_at k (fill_entry k filename attr cluster size buffer) in
    let name_length : length name ≡ 8 = length-short_name 8 filename in
    let ext_length : length ext ≡ 3 = length-short_ext 3 (after_dot filename) in
    let name_read = bytes_of-set_bytes (32 * k) name buffer (short_name-IsByte 8 filename bytes) in
    let ext_read =
      bytes_of-set_bytes (32 * k + 8) ext named
        (short_ext-IsByte 3 (after_dot filename) (after_dot-IsByte filename bytes)) in
    (
      bytes_of-agree 8 0 (32 * k) e named (λ i less.
            fields_behind (32 * k) attr cluster size both (32 * k + (0 + i)) (omega arith)
            ∙ set_bytes_outside (32 * k + 8) ext named (32 * k + (0 + i)) (inl (omega arith))
            ∙ ap named (omega arith))
          ∙ sym (ap (λ n. bytes_of n (32 * k) named) name_length)
          ∙ name_read,
      bytes_of-agree 3 8 (32 * k + 8) e both (λ i less.
            fields_behind (32 * k) attr cluster size both (32 * k + (8 + i)) (omega arith)
            ∙ ap both (omega arith))
          ∙ sym (ap (λ n. bytes_of n (32 * k + 8) both) ext_length)
          ∙ ext_read,
    )
