-- ===== src/Kheap/Fit.antt =====
-- First fit as a function on the list of blocks, and the loop of `kmalloc` against it.
use os_eojin.Base.{
  ℕ, zero, suc, ◌+◌, ◌-◌, ◌^◌, ◌≤◌, ◌<◌, ◌≡◌, refl, Bool, true, false, List, [], ◌∷◌, arith, ==_ne,
  if◌then◌else◌, ◌&&◌, ltb, leb, Option, none, some, length, ◌∙◌, All, ◌⊎◌, inl, inr, Bool-cases,
  subst,
}
use os_eojin.Kheap.{Header, header_size, Search, found, missing, first_fit}
use os_eojin.Kheap.Chain.{Block, start, Chain, last_addr}

abbrev pub fits : ℕ → Block → Bool
fits size b = b.free && leb size b.size

-- The first block that fits.
unfoldable pub fit : ℕ → List Block → Option Block
fit size [] = none
fit size (b ∷ bs) = let rest = fit size bs in if fits size b then some b else rest

-- A block taken for `size` bytes: split, where the rest holds a header and more than 8 bytes.
unfoldable pub cut : ℕ → Block → List Block → List Block
cut size b rest =
    if ltb (size + header_size + 8) b.size
    then record { addr = b.addr; size = size; free = false }
      ∷ record {
        addr = b.addr + header_size + size;
        size = b.size - size - header_size;
        free = true;
      }
      ∷ rest
    else record b { free = false } ∷ rest

-- The list with the first fit taken.
unfoldable pub place : ℕ → List Block → List Block
unfolding cut
place size [] = []
place size (b ∷ bs) = let rest = place size bs in if fits size b then cut size b bs else b ∷ rest

abbrev pub end_of : Block → ℕ
end_of b = b.addr + header_size + b.size

-- The two blocks, headers included, share no byte.
abbrev pub Apart : Block → Block → Type 0
Apart b c = (end_of b ≤ c.addr) ⊎ (end_of c ≤ b.addr)

-- The blocks lie in the address space and share no byte.
abbrev pub Layout : List Block → Type 0
Layout [] = Unit
Layout (b ∷ bs) = (header_size ≤ b.addr) × (end_of b < 2 ^ 64) × All (Apart b) bs × Layout bs

pub fit-fits : (size : ℕ) (bs : List Block) (c : Block) → fit size bs ≡ some c → fits size c ≡ true
unfolding fit
fit-fits size [] c e = cc
fit-fits size (b ∷ bs) c e = elim (Bool-cases (fits size b)) [
  | inl here ↦ let same : b ≡ c = ground arith in rw (← same) here
  | inr later ↦ fit-fits size bs c (ground arith)
]

-- What holds of all blocks holds of the first fit.
pub fit-All {κ} :
    (P : Block → Type κ) (size : ℕ) (bs : List Block) (c : Block)
    → fit size bs ≡ some c
    → All P bs
    → P c
unfolding fit
fit-All P size [] c e h = cc
fit-All P size (b ∷ bs) c e h = elim (Bool-cases (fits size b)) [
  | inl here ↦ let same : b ≡ c = ground arith in subst P same h.0
  | inr later ↦ fit-All P size bs c (ground arith) h.1
]

-- How the loop ends, by the first fit.
abbrev pub outcome : ℕ → List Block → Option Block → Search
outcome last bs none = missing (last_addr last bs)
outcome last bs (some c) = found c.addr

outcome-cons :
    (last : ℕ) (b : Block) (bs : List Block) (o : Option Block)
    → outcome b.addr bs o ≡ outcome last (b ∷ bs) o
outcome-cons last b bs none = refl
outcome-cons last b bs (some c) = refl

-- With more fuel than blocks the loop of `kmalloc` ends at the first fit, or behind the last block.
pub first_fit-fit :
    (fuel size last : ℕ) (at : ℕ → Header) (bs : List Block)
    → length bs < fuel
    → Chain at bs
    → first_fit fuel size at (start bs) last ≡ outcome last bs (fit size bs)
unfolding first_fit fit
first_fit-fit zero size last at bs long c = absurd (omega arith)
first_fit-fit (suc fuel) size last at [] long c = refl
first_fit-fit (suc fuel) size last at (b ∷ bs) long c =
    let ih = first_fit-fit fuel size b.addr at bs (omega arith) c.3 in
    elim (Bool-cases (fits size b)) [
      | inl here ↦ rw (==_ne b.addr 0 c.0, c.1, here)
      | inr later ↦ rw (==_ne b.addr 0 c.0, c.1, later) (ih ∙ outcome-cons last b bs (fit size bs))
    ]
