-- ===== src/Fat/Listing.antt =====
-- `fat_list` and `fat_find_file` of src/fs/fat.c agree on names.
use os_eojin.Base.{
  ℕ, zero, suc, ◌+◌, ◌≡◌, ◌≢◌, refl, true, ◌==◌, List, [], ◌∷◌, ◌++◌, replicate, length, arith, ◌∙◌,
  ap, sym, Bool-cases, inl, inr, ==_ne, ==_refl,
}
use os_eojin.Utils.{strcpy}
use os_eojin.Fat.Name.{until_space, dotted, same_name, upper, fat_filename_match}
use os_eojin.Fat.Mount.{trim_spaces, name_messages}

-- Characters that are no space and no closing 0.
abbrev pub AllPlain : List ℕ → Type 0
AllPlain [] = Unit
AllPlain (c ∷ s) = ((c ≢ 0) × (c ≢ b' ')) × AllPlain s

-- Messages in a row, as they stand on the screen.
abbrev pub in_a_row : List (List ℕ) → List ℕ
in_a_row [] = []
in_a_row (message ∷ messages) = message ++ in_a_row messages

append-nil : (s : List ℕ) → s ++ [] ≡ s
append-nil [] = refl
append-nil (c ∷ s) = ap (λ t. c ∷ t) (append-nil s)

until_space-spaces : (n i : ℕ) → until_space n (replicate i b' ') ≡ []
unfolding until_space
until_space-spaces zero i = refl
until_space-spaces (suc n) zero = refl
until_space-spaces (suc n) (suc i) = refl

until_space-plain :
    (a : List ℕ) (i n : ℕ)
    → AllPlain a
    → n ≡ length a + i
    → until_space n (a ++ replicate i b' ') ≡ a
unfolding until_space
until_space-plain [] i n plain e = until_space-spaces n i
until_space-plain (c ∷ a) i zero plain e = absurd (omega (arith, e))
until_space-plain (c ∷ a) i (suc n) ((some', solid), plain) e =
    rw (==_ne c b' ' solid, until_space-plain a i n plain (omega (arith, e))) refl

trim_spaces-spaces : (i : ℕ) → trim_spaces (replicate i b' ') ≡ []
unfolding trim_spaces
trim_spaces-spaces zero = refl
trim_spaces-spaces (suc i) = rw (trim_spaces-spaces i) refl

trim_spaces-plain : (a : List ℕ) (i : ℕ) → AllPlain a → trim_spaces (a ++ replicate i b' ') ≡ a
unfolding trim_spaces
trim_spaces-plain [] i plain = trim_spaces-spaces i
trim_spaces-plain (c ∷ a) i ((some', solid), plain) =
    rw (==_ne c b' ' solid, trim_spaces-plain a i plain) refl

strcpy-plain : (a : List ℕ) → AllPlain a → strcpy a ≡ a
unfolding strcpy
strcpy-plain [] plain = refl
strcpy-plain (c ∷ a) ((some', solid), plain) = rw (==_ne c 0 some', strcpy-plain a plain) refl

same_name_self : (s : List ℕ) → same_name s s ≡ true
unfolding same_name
same_name_self [] = refl
same_name_self (c ∷ s) = elim (Bool-cases (c == 0)) [
  | inl end ↦ rw end refl
  | inr more ↦ rw (more, ==_refl (upper c), same_name_self s) refl
]

-- The text of both is the same.
dotted-in_a_row :
    (a b : List ℕ) (i j : ℕ)
    → AllPlain a
    → AllPlain b
    → 8 ≡ length a + i
    → 3 ≡ length b + j
    → dotted (a ++ replicate i b' ') (b ++ replicate j b' ')
      ≡ in_a_row (name_messages (a ++ replicate i b' ') (b ++ replicate j b' '))
unfolding dotted
dotted-in_a_row a [] i zero plain plain' e e' = absurd (omega (arith, e'))
dotted-in_a_row a [] i (suc j) plain plain' e e' =
    rw
      (
        until_space-plain a i 8 plain e,
        trim_spaces-plain a i plain,
        strcpy-plain a plain,
        trim_spaces-spaces (suc j),
      )
      refl
dotted-in_a_row a (c ∷ b) i j plain plain' e e' =
    let ((some', solid), rest) = plain' in
    rw
      (
        until_space-plain a i 8 plain e,
        trim_spaces-plain a i plain,
        strcpy-plain a plain,
        until_space-plain (c ∷ b) j 3 plain' e',
        trim_spaces-plain (c ∷ b) j plain',
        strcpy-plain (c ∷ b) plain',
        ==_ne c b' ' solid,
        ==_ne c 0 some',
      )
      (ap (λ s. a ++ (b'.' ∷ c ∷ s)) (sym (append-nil b)))

-- For an entry whose name and extension hold characters other than 0 and space, and spaces behind
-- them only: `fat_filename_match` takes what `fat_list` prints as its name for a name of this entry.
pub fat_filename_match-listed :
    (a b : List ℕ) (i j : ℕ)
    → AllPlain a
    → AllPlain b
    → length a + i ≡ 8
    → length b + j ≡ 3
    → fat_filename_match
        (a ++ replicate i b' ')
        (b ++ replicate j b' ')
        (in_a_row (name_messages (a ++ replicate i b' ') (b ++ replicate j b' ')))
      ≡ true
unfolding fat_filename_match
fat_filename_match-listed a b i j plain plain' e e' =
    ap
      (λ temp.
        same_name temp (in_a_row (name_messages (a ++ replicate i b' ') (b ++ replicate j b' '))))
      (dotted-in_a_row a b i j plain plain' (sym e) (sym e'))
    ∙ same_name_self (in_a_row (name_messages (a ++ replicate i b' ') (b ++ replicate j b' ')))
