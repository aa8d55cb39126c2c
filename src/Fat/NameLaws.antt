-- ===== src/Fat/NameLaws.antt =====
-- What the names of src/fs/fat.c satisfy.
use os_eojin.Base.{
  ℕ, zero, suc, ◌<◌, ◌≤◌, ◌≡◌, ◌≢◌, refl, true, false, ◌==◌, List, [], ◌∷◌, ◌++◌, get_or, All,
  length, arith, ap, ◌∙◌, ==_ne, sym, Bool-cases, inl, inr, ◌↔◌, map, ap₂, ==_iff,
}
use os_eojin.Fat.Name.{
  upper, until_space, dotted, same_name, fat_filename_match, short_name, after_dot, short_ext,
  to_short,
}

-- A character that may stand in a name: no 0, no space and no dot.
abbrev pub IsPlain : ℕ → Type 0
IsPlain c = (c ≢ 0) × (c ≢ b' ') × (c ≢ b'.')

-- The name field that `fat_create_entry` makes of plain characters gives them back in capitals.
until_space-short_name :
    (j : ℕ) (s t : List ℕ)
    → length s ≤ j
    → All IsPlain s
    → until_space j (short_name j (s ++ (b'.' ∷ t))) ≡ map upper s
unfolding until_space short_name
until_space-short_name zero [] t le plain = refl
until_space-short_name zero (c ∷ s) t le plain = absurd (omega arith)
until_space-short_name (suc j) [] t le plain = refl
until_space-short_name (suc j) (c ∷ s) t le plain =
    let ih = until_space-short_name j s t (omega arith) plain.1 in
    rw (==_ne c 0 plain.0.0, ==_ne c b'.' plain.0.2) (ground (arith, ih, plain.0.1))

until_space-short_ext :
    (j : ℕ) (s : List ℕ)
    → length s ≤ j
    → All IsPlain s
    → until_space j (short_ext j s) ≡ map upper s
unfolding until_space short_ext
until_space-short_ext zero [] le plain = refl
until_space-short_ext zero (c ∷ s) le plain = absurd (omega arith)
until_space-short_ext (suc j) [] le plain = refl
until_space-short_ext (suc j) (c ∷ s) le plain =
    let ih = until_space-short_ext j s (omega arith) plain.1 in
    rw (==_ne c 0 plain.0.0) (ground (arith, ih, plain.0.1))

after_dot-plain : (s t : List ℕ) → All IsPlain s → after_dot (s ++ (b'.' ∷ t)) ≡ t
unfolding after_dot
after_dot-plain [] t plain = refl
after_dot-plain (c ∷ s) t plain =
    rw (==_ne c 0 plain.0.0, ==_ne c b'.' plain.0.2) (after_dot-plain s t plain.1)

abbrev tail : List ℕ → List ℕ
tail [] = []
tail (c ∷ s) = s

==_false : (a b : ℕ) → (a == b) ≡ false → a ≢ b
==_false a b h = ground arith

-- The comparison is equality up to case.
same_name_iff :
    (s t : List ℕ)
    → All (λ c. c ≢ 0) s
    → All (λ c. c ≢ 0) t
    → (same_name s t ≡ true) ↔ (map upper s ≡ map upper t)
unfolding same_name
same_name_iff [] [] some_s some_t = ((λ e. refl), (λ e. refl))
same_name_iff [] (d ∷ t) some_s some_t = ground (arith, some_t.0)
same_name_iff (c ∷ s) [] some_s some_t = ground (arith, some_s.0)
same_name_iff (c ∷ s) (d ∷ t) some_s some_t =
    let ih = same_name_iff s t some_s.1 some_t.1 in
    rw (==_ne c 0 some_s.0, ==_ne d 0 some_t.0)
      (elim (Bool-cases (upper c == upper d)) [
        | inl e ↦ rw e (
          (λ h. ap₂ (λ x xs. x ∷ xs) ((==_iff (upper c) (upper d)).0 e) (ih.0 h)),
          (λ h. ih.1 (ap tail h)),
        )
        | inr ne ↦
            rw ne (
              (λ h. cc),
              (λ h. absurd (==_false (upper c) (upper d) ne (ap (λ l. get_or l 0 0) h))),
            )
      ])

short_ext-plain :
    (c : ℕ) (t : List ℕ) → IsPlain c → (get_or (short_ext 3 (c ∷ t)) 0 0 == b' ') ≡ false
unfolding short_ext
short_ext-plain c t plain = rw (==_ne c 0 plain.0) (ground (arith, plain.1))

map-append : (s t : List ℕ) → map upper (s ++ t) ≡ map upper s ++ map upper t
map-append [] t = refl
map-append (c ∷ s) t = ap (λ l. upper c ∷ l) (map-append s t)

upper_twice : (s : List ℕ) → map upper (map upper s) ≡ map upper s
upper_twice [] = refl
upper_twice (c ∷ s) =
    let twice : upper (upper c) ≡ upper c = ground arith in
    ap₂ (λ x xs. x ∷ xs) twice (upper_twice s)

upper_nonzero : (s : List ℕ) → All (λ c. c ≢ 0) s → All (λ c. c ≢ 0) (map upper s)
upper_nonzero [] nonzero = tt
upper_nonzero (c ∷ s) nonzero = (ground (arith, nonzero.0), upper_nonzero s nonzero.1)

plain_nonzero : (s t : List ℕ) → All IsPlain s → All IsPlain t → All (λ c. c ≢ 0) (s ++ (b'.' ∷ t))
plain_nonzero [] [] plain plain' = (omega arith, tt)
plain_nonzero [] (d ∷ t) plain plain' =
    (omega arith, (plain'.0.0, (plain_nonzero [] t tt plain'.1).1))
plain_nonzero (c ∷ s) t plain plain' = (plain.0.0, plain_nonzero s t plain.1 plain')

-- A name of at most 8 plain characters, a dot and 1 to 3 plain characters.
pub record Is83 (s t : List ℕ) : Type 0 where
  pub name_fits : length s ≤ 8
  pub has_ext : 0 < length t
  pub ext_fits : length t ≤ 3
  pub name_plain : All IsPlain s
  pub ext_plain : All IsPlain t

dotted-to_short :
    (s t : List ℕ)
    → Is83 s t
    → let (name, ext) = to_short (s ++ (b'.' ∷ t)) in dotted name ext ≡ map upper (s ++ (b'.' ∷ t))
unfolding dotted to_short
dotted-to_short s [] ok = absurd (omega (arith, ok.has_ext))
dotted-to_short s (c ∷ t) ok =
    rw
      (
        after_dot-plain s (c ∷ t) ok.name_plain,
        short_ext-plain c t ok.ext_plain.0,
        until_space-short_name 8 s (c ∷ t) ok.name_fits ok.name_plain,
        until_space-short_ext 3 (c ∷ t) ok.ext_fits ok.ext_plain,
      )
      (sym (map-append s (b'.' ∷ c ∷ t)))

-- For a file name of at most 8 plain characters, a dot and 1 to 3 plain characters, the 8.3 name
-- that fat_create_entry makes of it matches an input without a 0 exactly when the input is the
-- file name up to case.
pub fat_filename_match-to_short :
    (s t input : List ℕ)
    → Is83 s t
    → All (λ c. c ≢ 0) input
    → let filename = s ++ (b'.' ∷ t) in
      let (name, ext) = to_short filename in
      (fat_filename_match name ext input ≡ true) ↔ (map upper filename ≡ map upper input)
unfolding fat_filename_match
fat_filename_match-to_short s t input ok nonzero =
    let filename = s ++ (b'.' ∷ t) in
    let named = upper_nonzero filename (plain_nonzero s t ok.name_plain ok.ext_plain) in
    let same = same_name_iff (map upper filename) input named nonzero in
    let form = ap (λ l. same_name l input) (dotted-to_short s t ok) in
    (
      (λ h. sym (upper_twice filename) ∙ same.0 (sym form ∙ h)),
      (λ h. form ∙ same.1 (upper_twice filename ∙ h)),
    )
