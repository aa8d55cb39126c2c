-- ===== src/Machine/Bytes.antt =====
-- Reads after writes of memory: `memset`, `memcpy` and little-endian numbers.
use os_eojin.Base.{
  ℕ, zero, suc, ◌+◌, ◌-◌, ◌/◌, ◌%◌, ◌^◌, ◌≤◌, ◌<◌, ◌≡◌, refl, ltb, leb, ◌&&◌, if◌then◌else◌, arith,
  ap, ◌∙◌, ◌⊎◌, inl,
}
use os_eojin.Base.Div.{mod-mul-base}
use native.Mathlib.Nat.{pow-suc, one-le-pow}
use os_eojin.Machine.{fill, store_byte, memset, memcpy, load, store}

-- `memset` writes exactly its range.
pub memset-fill :
    (count ptr val a : ℕ) (mem : ℕ → ℕ) → memset ptr val count mem a ≡ fill ptr val count mem a
unfolding memset
memset-fill zero ptr val a mem = ground arith
memset-fill (suc count) ptr val a mem =
    memset-fill count (ptr + 1) val a (store_byte ptr (val % 256) mem) ∙ ground arith

next_index : (s d a : ℕ) → d < a → s + 1 + (a - (d + 1)) ≡ s + (a - d)
next_index s d a h = omega arith

-- `memcpy` between ranges that do not overlap copies each byte and changes no other.
pub memcpy-copies :
    (n dest source a : ℕ) (mem : ℕ → ℕ)
    → (dest + n ≤ source) ⊎ (source + n ≤ dest)
    → memcpy dest source n mem a
      ≡ (if leb dest a && ltb a (dest + n) then mem (source + (a - dest)) else mem a)
unfolding memcpy
memcpy-copies zero dest source a mem h = ground arith
memcpy-copies (suc n) dest source a mem h =
    memcpy-copies n (dest + 1) (source + 1) a (store_byte dest (mem source) mem) (omega arith)
    ∙ ground (arith, next_index source dest a)

store_byte_self : (a v : ℕ) (mem : ℕ → ℕ) → store_byte a v mem a ≡ v
store_byte_self a v mem = ground arith

-- A write leaves the bytes outside its range.
pub store_outside : (n a v b : ℕ) (mem : ℕ → ℕ) → (b < a) ⊎ (a + n ≤ b) → store n a v mem b ≡ mem b
unfolding store
store_outside zero a v b mem h = refl
store_outside (suc n) a v b mem h =
    store_outside n (a + 1) (v / 256) b (store_byte a (v % 256) mem) (omega arith) ∙ ground arith

-- A number is read back modulo its width.
pub load-store_self : (n a v : ℕ) (mem : ℕ → ℕ) → load n a (store n a v mem) ≡ v % 256 ^ n
unfolding load store
load-store_self zero a v mem = omega arith
load-store_self (suc n) a v mem = omega (
  arith,
  store_outside n (a + 1) (v / 256) a (store_byte a (v % 256) mem) (inl (omega arith)),
  store_byte_self a (v % 256) mem,
  load-store_self n (a + 1) (v / 256) (store_byte a (v % 256) mem),
  mod-mul-base (256 ^ n) 256 v (one-le-pow n 256 (omega arith)) (omega arith),
  ap (λ (t : ℕ). v % t) (pow-suc 256 n),
)

-- A read sees only its own bytes.
pub load_same :
    (n a : ℕ) (mem mem' : ℕ → ℕ)
    → ((b : ℕ) → a ≤ b → b < a + n → mem b ≡ mem' b)
    → load n a mem ≡ load n a mem'
unfolding load
load_same zero a mem mem' h = refl
load_same (suc n) a mem mem' h = omega (
  arith,
  h a (omega arith) (omega arith),
  load_same n (a + 1) mem mem' (λ b p q. h b (omega arith) (omega arith)),
)
