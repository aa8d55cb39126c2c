-- ===== src/Utils/Hex.antt =====
-- `hex_to_ascii` of src/kernel/utils.c read back.
use os_eojin.Base.{
  ℕ, zero, suc, ◌+◌, ◌-◌, ◌*◌, ◌/◌, ◌%◌, ◌^◌, ◌<◌, ◌≡◌, refl, true, List, [], ◌∷◌, ◌==◌, ==_iff,
  ltb, if◌then◌else◌, length, arith, ap, ◌∙◌,
}
use os_eojin.Base.Bits.{all_below, all_below_sound}
use os_eojin.Base.Div.{mod-mul-base}
use os_eojin.Utils.{hex_digit, hex_loop, hex_to_ascii}
use native.Mathlib.Nat.{pow-suc, one-le-pow}

-- The value of a lower-case hexadecimal digit.
unfoldable pub digit_value : ℕ → ℕ
digit_value c = if ltb c b'a' then c - b'0' else c - b'a' + 10

-- The number that digits denote, the first the most significant, after a value so far.
unfoldable pub value_from : ℕ → List ℕ → ℕ
value_from acc [] = acc
value_from acc (c ∷ s) = value_from (acc * 16 + digit_value c) s

-- What a "0x…" text denotes.
unfoldable pub hex_value : List ℕ → ℕ
unfolding digit_value value_from
hex_value [] = 0
hex_value (c ∷ []) = 0
hex_value (c ∷ d ∷ s) = value_from 0 s

digit_table : all_below 16 (λ d. digit_value (hex_digit d) == d) ≡ true
unfolding digit_value
digit_table = refl

digit_value-hex_digit : (d : ℕ) → d < 16 → digit_value (hex_digit d) ≡ d
digit_value-hex_digit d h =
    (==_iff _ d).0 (all_below_sound 16 (λ d. digit_value (hex_digit d) == d) d digit_table h)

-- With `i` digits still to come the text so far stands for the digits above them.
value_from-hex_loop :
    (i n : ℕ) (str : List ℕ) (acc : ℕ)
    → value_from acc (hex_loop i n str) ≡ value_from (acc * 16 ^ i + n % 16 ^ i) str
unfolding hex_loop value_from
value_from-hex_loop zero n str acc = ap (λ (t : ℕ). value_from t str) (omega arith)
value_from-hex_loop (suc i) n str acc =
    value_from-hex_loop i (n / 16) (hex_digit (n % 16) ∷ str) acc
    ∙ ap (λ (t : ℕ). value_from t str)
        (omega (
          arith,
          digit_value-hex_digit (n % 16) (omega arith),
          mod-mul-base (16 ^ i) 16 n (one-le-pow i 16 (omega arith)) (omega arith),
          pow-suc 16 i,
          ap (λ (t : ℕ). n % t) (pow-suc 16 i),
          ap (λ (t : ℕ). acc * t) (pow-suc 16 i),
        ))

length-hex_loop : (i n : ℕ) (str : List ℕ) → length (hex_loop i n str) ≡ i + length str
unfolding hex_loop
length-hex_loop zero n str = omega arith
length-hex_loop (suc i) n str = omega (arith, length-hex_loop i (n / 16) (hex_digit (n % 16) ∷ str))

-- The text is "0x" and 16 digits, and denotes the number modulo 2^64: a 64-bit value is read back.
pub hex_value-hex_to_ascii :
    (n : ℕ) → (hex_value (hex_to_ascii n) ≡ n % 2 ^ 64) × (length (hex_to_ascii n) ≡ 18)
unfolding hex_value hex_to_ascii
hex_value-hex_to_ascii n =
    (value_from-hex_loop 16 n [] 0 ∙ omega arith, omega (arith, length-hex_loop 16 n []))
