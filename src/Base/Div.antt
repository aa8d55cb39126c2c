-- ===== src/Base/Div.antt =====
-- Division and remainder by a product.
use Prim.Native.Nat.{ℕ, ◌+◌, ◌*◌, ◌/◌, ◌%◌, ◌<◌}
use mathlib.Core.Path.{◌≡◌, ap, ◌∙◌}
use native.Mathlib.Omega.{arith}
use native.Mathlib.Nat.{add-mul-mod_self_right, mod-eq_of_lt, mod-lt, div-add-mod'}

digit_below : (m b r d : ℕ) → r < m → d < b → r * b + d < m * b
digit_below m b r d hr hd = grind arith

-- The lowest digit in base `b` of a remainder by `m * b`.
pub mod-mul-base : (m b n : ℕ) → 0 < m → 0 < b → n % (m * b) ≡ n / b % m * b + n % b
mod-mul-base m b n hm hb =
    ap (λ (t : ℕ). t % (m * b)) split
    ∙ add-mul-mod_self_right low (n / b / m) (m * b)
    ∙ mod-eq_of_lt (digit_below m b (n / b % m) (n % b) (mod-lt (n / b) hm) (mod-lt n hb))
  where
    low : ℕ
    low = n / b % m * b + n % b

    split : n ≡ low + n / b / m * (m * b)
    split = omega (arith, div-add-mod' n b, ap (λ (t : ℕ). t * b) (div-add-mod' (n / b) m))
