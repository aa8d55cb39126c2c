-- ===== src/Utils.antt =====
-- src/kernel/utils.c: C strings, as the list of their bytes up to the terminating 0.
pub mod Text
pub mod Hex
mod Tests
use os_eojin.Base.{
  ℕ, zero, suc, ◌+◌, ◌-◌, ◌*◌, ◌/◌, ◌%◌, ◌^◌, Bool, true, false, List, [], ◌∷◌, ◌++◌, ◌==◌,
  if◌then◌else◌, codes, get_or, length, ◌&&◌, not, Option, none, some, drop,
}
use os_eojin.Base.Int.{ℤ, pos, sub_ℕ}

-- `s[i]`: a string reads as 0 at its end.
abbrev pub char_at : List ℕ → ℕ → ℕ
char_at s i = get_or s i 0

-- The value of a byte as a signed char, plus 128.
abbrev pub biased : ℕ → ℕ
biased c = (c + 128) % 256

-- The result of the loop of `strcmp` on what is left of both strings.
unfoldable pub strcmp : List ℕ → List ℕ → ℤ
strcmp [] [] = pos 0
strcmp [] (d ∷ t) = if d == 0 then pos 0 else sub_ℕ (biased 0) (biased d)
strcmp (c ∷ s) [] = if c == 0 then pos 0 else sub_ℕ (biased c) (biased 0)
strcmp (c ∷ s) (d ∷ t) =
    let rest = strcmp s t in
    if c == d then (if c == 0 then pos 0 else rest) else sub_ℕ (biased c) (biased d)

-- Bytes before the first 0: what `strlen` counts and `strcpy` copies.
pub strlen : List ℕ → ℕ
strlen [] = 0
strlen (c ∷ s) = let rest = strlen s in if c == 0 then 0 else rest + 1

unfoldable pub strcpy : List ℕ → List ℕ
strcpy [] = []
strcpy (c ∷ s) = let rest = strcpy s in if c == 0 then [] else c ∷ rest

-- "0123456789abcdef"[d]
abbrev pub hex_digit : ℕ → ℕ
hex_digit d = get_or (codes "0123456789abcdef") d 0

-- The loop fills the string from the right: `n & 0xf` is `n % 16`, `n >>= 4` is `n / 16`.
pub hex_loop : ℕ → ℕ → List ℕ → List ℕ
hex_loop zero n str = str
hex_loop (suc i) n str = hex_loop i (n / 16) (hex_digit (n % 16) ∷ str)

unfoldable pub hex_to_ascii : ℕ → List ℕ
unfolding hex_loop
hex_to_ascii n = b'0' ∷ b'x' ∷ hex_loop 16 n []

-- `while (input[i] == ' ') i++;` over the bytes left from `i`, and the new `i`.
unfoldable pub skip_spaces : List ℕ → ℕ → ℕ
skip_spaces [] i = i
skip_spaces (c ∷ s) i = let rest = skip_spaces s (i + 1) in if c == b' ' then rest else i

-- `while (input[i] != ' ' && input[i] != '\0') buffer[j++] = input[i++];`
unfoldable pub copy_token : List ℕ → List ℕ
copy_token [] = []
copy_token (c ∷ s) =
    let rest = copy_token s in if not (c == b' ') && not (c == 0) then c ∷ rest else []

-- Whether there is a token, what is written to `buffer` if there is, and the new `*offset`.
unfoldable pub get_next_token : List ℕ → ℕ → Bool × Option (List ℕ) × ℕ
unfolding skip_spaces copy_token
get_next_token input offset =
    let i = skip_spaces (drop offset input) offset in
    let token = copy_token (drop i input) in
    if char_at input i == 0 then (false, none, i) else (true, some token, i + length token)
