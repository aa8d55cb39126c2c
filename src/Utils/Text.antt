-- ===== src/Utils/Text.antt =====
-- C strings of src/kernel/utils.c: comparison, length, copy and tokens.
use os_eojin.Base.{
  ℕ, zero, suc, ◌+◌, ◌<◌, ◌≡◌, ◌≢◌, ◌↔◌, refl, true, false, List, [], ◌∷◌, ◌++◌, length, arith, ◌∙◌,
  length-replicate, length-append, drop-append, get_or-append, get_or_end, ==_ne, All, replicate,
  drop, none, some,
}
use os_eojin.Base.Int.{pos}
use os_eojin.Utils.{char_at, strcmp, strlen, strcpy, skip_spaces, copy_token, get_next_token}

-- A byte that may stand inside a C string.
abbrev pub IsChar : ℕ → Type 0
IsChar c = (0 < c) × (c < 256)

abbrev pub IsText : List ℕ → Type 0
IsText = All IsChar

strcmp_self : (s : List ℕ) → strcmp s s ≡ pos 0
unfolding strcmp
strcmp_self [] = refl
strcmp_self (c ∷ s) = ground (arith, strcmp_self s)

strcmp_sound : (s t : List ℕ) → IsText s → IsText t → strcmp s t ≡ pos 0 → s ≡ t
unfolding strcmp
strcmp_sound [] [] hs ht e = refl
strcmp_sound [] (d ∷ t) hs ht e = ground arith
strcmp_sound (c ∷ s) [] hs ht e = ground arith
strcmp_sound (c ∷ s) (d ∷ t) hs ht e = ground (arith, strcmp_sound s t hs.1 ht.1)

-- `strcmp` returns 0 exactly for equal strings.
pub strcmp_iff : (s t : List ℕ) → IsText s → IsText t → (strcmp s t ≡ pos 0) ↔ (s ≡ t)
strcmp_iff s t hs ht = (strcmp_sound s t hs ht, λ e. rw e (strcmp_self t))

-- On a C string `strlen` is the length and `strcpy` copies all of it.
pub strlen-length : (s : List ℕ) → IsText s → strlen s ≡ length s
unfolding strlen
strlen-length [] h = refl
strlen-length (c ∷ s) h = ground (arith, strlen-length s h.1)

pub strcpy_all : (s : List ℕ) → IsText s → strcpy s ≡ s
unfolding strcpy
strcpy_all [] h = refl
strcpy_all (c ∷ s) h = ground (arith, strcpy_all s h.1)

-- Neither a space nor the end.
abbrev pub IsSolid : ℕ → Type 0
IsSolid c = (c ≢ 0) × (c ≢ b' ')

-- Nothing, or a space first.
abbrev pub Stops : List ℕ → Type 0
Stops [] = Unit
Stops (c ∷ s) = c ≡ b' '

copy_token_lem : (t rest : List ℕ) → All IsSolid t → Stops rest → copy_token (t ++ rest) ≡ t
unfolding copy_token
copy_token_lem [] [] h st = refl
copy_token_lem [] (c ∷ rest) h st = ground arith
copy_token_lem (c ∷ t) rest h st = ground (arith, copy_token_lem t rest h.1 st)

skip_spaces_lem :
    (k i c : ℕ) (s : List ℕ) → c ≢ b' ' → skip_spaces (replicate k b' ' ++ c ∷ s) i ≡ i + k
unfolding skip_spaces
skip_spaces_lem zero i c s h = ground arith
skip_spaces_lem (suc k) i c s h = ground (arith, skip_spaces_lem k (i + 1) c s h)

skip_spaces_all : (k i : ℕ) → skip_spaces (replicate k b' ') i ≡ i + k
unfolding skip_spaces
skip_spaces_all zero i = omega arith
skip_spaces_all (suc k) i = ground (arith, skip_spaces_all k (i + 1))

-- Behind what was read so far and `k` spaces.
module _ (pre : List ℕ) (k : ℕ) (s : List ℕ) where
  abbrev spaced : List ℕ
  spaced = pre ++ (replicate k b' ' ++ s)

  drop-spaced : drop (length pre + k) spaced ≡ s
  drop-spaced =
      drop-append pre (replicate k b' ' ++ s) (length pre + k) k refl
      ∙ drop-append (replicate k b' ') s k 0 (omega (arith, length-replicate {A = ℕ} k b' '))

  char_at-spaced : char_at spaced (length pre + k) ≡ char_at s 0
  char_at-spaced =
      get_or-append pre (replicate k b' ' ++ s) (length pre + k) k 0 refl
      ∙ get_or-append (replicate k b' ') s k 0 0 (omega (arith, length-replicate {A = ℕ} k b' '))

-- After any text read so far and any spaces, a token that ends at a space or at the end of the
-- input is copied whole, and the offset moves just past it.
pub get_next_token_lem :
    (pre t rest : List ℕ) (k c : ℕ)
    → All IsSolid (c ∷ t)
    → Stops rest
    → get_next_token (pre ++ (replicate k b' ' ++ (c ∷ t ++ rest))) (length pre)
      ≡ (true, some (c ∷ t), length pre + k + length (c ∷ t))
unfolding get_next_token
get_next_token_lem pre t rest k c solid st = rw (
  drop-append pre (replicate k b' ' ++ (c ∷ t ++ rest)) (length pre) 0 (omega arith),
  skip_spaces_lem k (length pre) c (t ++ rest) solid.0.1,
  char_at-spaced pre k (c ∷ t ++ rest),
  drop-spaced pre k (c ∷ t ++ rest),
  copy_token_lem (c ∷ t) rest solid st,
  ==_ne c 0 solid.0.0,
)

-- Where only spaces are left there is no token, and the offset moves to the end.
pub get_next_token-none :
    (pre : List ℕ) (k : ℕ)
    → get_next_token (pre ++ replicate k b' ') (length pre) ≡ (false, none, length pre + k)
unfolding get_next_token
get_next_token-none pre k = rw (
  drop-append pre (replicate k b' ') (length pre) 0 (omega arith),
  skip_spaces_all k (length pre),
  get_or_end (pre ++ replicate k b' ') (length pre + k) 0
      (omega (arith, length-append pre (replicate k b' '), length-replicate {A = ℕ} k b' ')),
)
