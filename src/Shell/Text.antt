-- ===== src/Shell/Text.antt =====
-- C strings in a buffer: what `strcpy` puts there is what `kprint` prints.
use os_eojin.Base.{
  ℕ, zero, suc, ◌+◌, ◌%◌, ◌^◌, ◌<◌, ◌≡◌, ◌≢◌, refl, List, [], ◌∷◌, ◌++◌, length, arith, ◌∙◌, some,
  inl, ==_ne,
}
use os_eojin.Utils.Text.{IsText}
use os_eojin.Isr.{c_string}
use os_eojin.Fat.{set_byte}
use os_eojin.Fat.Dir.{set_bytes}
use os_eojin.Fat.Slot.{set_bytes_outside}

-- The string `s` stands at `at`, with its closing 0.
abbrev pub Spells : List ℕ → ℕ → (ℕ → ℕ) → Type 0
Spells [] at g = g at ≡ 0
Spells (c ∷ s) at g = (g at ≡ c) × (c ≢ 0) × Spells s (at + 1) g

pub c_string-Spells :
    (fuel : ℕ) (s : List ℕ) (at : ℕ) (g : ℕ → ℕ)
    → length s < fuel
    → Spells s at g
    → c_string fuel at g ≡ some s
unfolding c_string
c_string-Spells zero s at g less sp = absurd (omega (arith, less))
c_string-Spells (suc fuel) [] at g less sp = rw sp refl
c_string-Spells (suc fuel) (c ∷ s) at g less (here, some', more) =
    let rest = c_string-Spells fuel s (at + 1) g (omega (arith, less)) more in
    rw (here, ==_ne c 0 some', rest) refl

pub Spells-set_bytes :
    (s : List ℕ) (at : ℕ) (buffer : ℕ → ℕ)
    → IsText s
    → Spells s at (set_bytes at (s ++ (0 ∷ [])) buffer)
Spells-set_bytes [] at buffer text = ground arith
Spells-set_bytes (c ∷ s) at buffer text = (
  set_bytes_outside (at + 1) (s ++ (0 ∷ [])) (set_byte at c buffer) at (inl (omega arith))
      ∙ ground (arith, text.0),
  λ e. absurd (omega (arith, e, text.0)),
  Spells-set_bytes s (at + 1) (set_byte at c buffer) text.1,
)

-- A buffer that agrees up to byte 512 spells the same.
pub Spells-agree :
    (s : List ℕ) (at : ℕ) (g h : ℕ → ℕ)
    → at + length s < 512
    → IsText s
    → ((k : ℕ) → k < 512 → h k ≡ g k % 2 ^ 8)
    → Spells s at g
    → Spells s at h
Spells-agree [] at g h short text same sp = same at (omega (arith, short)) ∙ omega (arith, sp)
Spells-agree (c ∷ s) at g h short text same (here, some', more) = (
  same at (omega (arith, short)) ∙ omega (arith, here, text.0),
  some',
  Spells-agree s (at + 1) g h (omega (arith, short)) text.1 same more,
)
