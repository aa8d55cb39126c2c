-- ===== src/Vmm/Word.antt =====
-- Table entries as 64-bit words of memory: reads after the writes of src/kernel/vmm.c.
use os_eojin.Base.{
  ℕ, zero, suc, ◌+◌, ◌*◌, ◌/◌, ◌%◌, ◌^◌, ◌≤◌, ◌<◌, ◌≡◌, refl, bit_or, false, ◌==◌, ◌&&◌, ltb,
  if◌then◌else◌, arith, ap, ◌∙◌, ◌⊎◌, inl, inr, Bool-cases,
}
use os_eojin.Base.Bits.{bit_or_halves}
use native.Mathlib.Nat.{pow-suc}
use os_eojin.Machine.{memset, load, read64, write64}
use os_eojin.Machine.Bytes.{memset-fill, load-store_self, store_outside, load_same}

bit_or-zero : (n x : ℕ) → x ≤ n → bit_or x 0 ≡ x
bit_or-zero n zero le = refl
bit_or-zero zero (suc x) le = absurd (omega arith)
bit_or-zero (suc n) (suc x) le =
    omega (arith, bit_or_halves (suc x) 0, bit_or-zero n (suc x / 2) (omega arith))

-- `|` of numbers that share no bit is `+`.
pub bit_or-add : (k x f : ℕ) → f < 2 ^ k → bit_or (x * 2 ^ k) f ≡ x * 2 ^ k + f
bit_or-add zero x f small =
    let e : f ≡ 0 = omega arith in
    let e' : x * 2 ^ 0 ≡ x = omega arith in rw (e, e') (bit_or-zero x x (omega arith) ∙ omega arith)
bit_or-add (suc k) x f small =
    let double : x * 2 ^ suc k ≡ x * 2 ^ k * 2 =
      omega (arith, pow-suc 2 k, ap (λ (t : ℕ). x * t) (pow-suc 2 k)) in
    let half : x * 2 ^ k * 2 / 2 ≡ x * 2 ^ k = omega arith in
    let ih = bit_or-add k x (f / 2) (omega (arith, pow-suc 2 k, small)) in
    rw double (bit_or_halves (x * 2 ^ k * 2) f ∙ rw half (omega (arith, ih)))

-- Entry `j` of the table in block `p`.
abbrev pub word : ℕ → ℕ → (ℕ → ℕ) → ℕ
word p j mem = read64 (p * 4096 + 8 * j) mem

-- The block that an entry names.
abbrev pub target : ℕ → ℕ
target entry = entry / 4096 % 2 ^ 40

apart :
    (p j q i b : ℕ)
    → ((p == q) && (j == i)) ≡ false
    → j < 512
    → i < 512
    → q * 4096 + 8 * i ≤ b
    → b < q * 4096 + 8 * i + 8
    → (b < p * 4096 + 8 * j) ⊎ (p * 4096 + 8 * j + 8 ≤ b)
apart p j q i b other small small' lo hi = elim (Bool-cases (ltb b (p * 4096 + 8 * j))) [
  | inl below ↦ inl (ground arith)
  | inr above ↦ inr (ground arith)
]

no_bytes : (a : ℕ) → load 8 a (λ b. 0) ≡ 0
unfolding load
no_bytes a = refl

pub word-write64 :
    (p j q i v : ℕ) (mem : ℕ → ℕ)
    → j < 512
    → i < 512
    → v < 2 ^ 64
    → word q i (write64 (p * 4096 + 8 * j) v mem)
      ≡ (if (p == q) && (j == i) then v else word q i mem)
word-write64 p j q i v mem small small' fits = elim (Bool-cases ((p == q) && (j == i))) [
  | inl same ↦ rw same (
      let e : q * 4096 + 8 * i ≡ p * 4096 + 8 * j = ground arith in
      ap (λ a. read64 a (write64 (p * 4096 + 8 * j) v mem)) e
      ∙ load-store_self 8 (p * 4096 + 8 * j) v mem
      ∙ omega (arith, fits))
  | inr other ↦ rw other (
      load_same 8 (q * 4096 + 8 * i) _ mem (λ b lo hi.
        store_outside 8 (p * 4096 + 8 * j) v b mem (apart p j q i b other small small' lo hi)))
]

-- A page that is cleared holds no entry, and every other page is as before.
pub word-memset :
    (p q i : ℕ) (mem : ℕ → ℕ)
    → i < 512
    → word q i (memset (p * 4096) 0 4096 mem) ≡ (if p == q then 0 else word q i mem)
word-memset p q i mem small = elim (Bool-cases (p == q)) [
  | inl same ↦ rw same (
      load_same 8 (q * 4096 + 8 * i) _ (λ b. 0)
        (λ b lo hi. memset-fill 4096 (p * 4096) 0 b mem ∙ ground arith)
      ∙ no_bytes (q * 4096 + 8 * i))
  | inr other ↦ rw other (
      load_same 8 (q * 4096 + 8 * i) _ mem
        (λ b lo hi. memset-fill 4096 (p * 4096) 0 b mem ∙ ground arith))
]
