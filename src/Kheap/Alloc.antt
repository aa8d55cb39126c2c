-- ===== src/Kheap/Alloc.antt =====
-- `kmalloc` of src/kernel/kheap.c on a chain of blocks: what it returns is memory of one block that
-- was free, and the chain stays a chain of blocks that share no byte.
use os_eojin.Base.{
  ℕ, ◌+◌, ◌-◌, ◌^◌, ◌≤◌, ◌<◌, ◌≡◌, ◌≢◌, refl, true, false, List, [], ◌∷◌, arith, if◌then◌else◌, ltb,
  some, ◌∙◌, ap, All, inl, inr, Bool-cases, subst, sym, ltb→lt,
}
use os_eojin.Machine.{u64}
use os_eojin.Kheap.{Header, header_size, put, take_block}
use os_eojin.Kheap.Chain.{Block, start, header, NotAt, Chain, Chain-put}
use os_eojin.Kheap.Fit.{fits, fit, fit-fits, fit-All, cut, place, end_of, Apart, Layout}

-- A header inside a block is at no other block.
NotAt-inside :
    (b : Block) (a : ℕ) (bs : List Block)
    → b.addr ≤ a
    → a < end_of b
    → All (Apart b) bs
    → NotAt a bs
NotAt-inside b a [] h k apart = tt
NotAt-inside b a (c ∷ bs) h k apart = (omega (arith, apart.0), NotAt-inside b a bs h k apart.1)

-- The header writes for a block `b` followed by `bs`, with no sum wrapping.
abbrev cut_headers : ℕ → Block → List Block → (ℕ → Header) → ℕ → Header
cut_headers size b bs at =
    let rest = b.addr + header_size + size in
    let behind : Block = record { addr = rest; size = b.size - size - header_size; free = true } in
    if ltb (size + header_size + 8) b.size
    then put b.addr (record { next = rest; size = size; is_free = false })
        (put rest (header behind bs) at)
    else put b.addr (record { next = start bs; size = b.size; is_free = false }) at

take_block-cut_headers :
    (size : ℕ) (at : ℕ → Header) (b : Block) (bs : List Block)
    → size ≤ b.size
    → header_size ≤ b.addr
    → end_of b < 2 ^ 64
    → at b.addr ≡ header b bs
    → take_block size b.addr at ≡ cut_headers size b bs at
unfolding take_block
take_block-cut_headers size at b bs le low high e =
    let request : u64 (size + header_size + 8) ≡ size + header_size + 8 = omega arith in
    let place : u64 (b.addr + header_size + size) ≡ b.addr + header_size + size = omega arith in
    elim (Bool-cases (ltb (size + header_size + 8) b.size)) [
      | inl split ↦
          let left : u64 (b.size + 2 ^ 64 - size - header_size) ≡ b.size - size - header_size =
            omega (arith, ltb→lt _ _ split) in
          rw (e, request, split, place, left)
      | inr whole ↦ rw (e, request, whole)
    ]

-- The writes of `take_block` make the cut block and what follows it a chain.
Chain-cut :
    (size : ℕ) (at : ℕ → Header) (b : Block) (bs : List Block)
    → Layout (b ∷ bs)
    → Chain at (b ∷ bs)
    → Chain (cut_headers size b bs at) (cut size b bs)
unfolding cut
Chain-cut size at b bs lay c = elim (Bool-cases (ltb (size + header_size + 8) b.size)) [
  | inl split ↦
      let rest = b.addr + header_size + size in
      let less = ltb→lt _ _ split in
      let out = NotAt-inside b rest bs (omega arith) (omega (arith, less)) lay.2 in
      rw split (
        c.0,
        ground arith,
        (omega (arith, lay.0), c.2),
        (
          omega (arith, lay.0),
          ground arith,
          out,
          Chain-put _ b.addr _ bs c.2 (Chain-put at rest _ bs out c.3),
        ),
      )
  | inr whole ↦ rw whole (c.0, ground arith, c.2, Chain-put at b.addr _ bs c.2 c.3)
]

pub start-place : (size : ℕ) (bs : List Block) → start (place size bs) ≡ start bs
unfolding place cut
start-place size [] = refl
start-place size (b ∷ bs) = ground arith

-- A block that shares no byte with the first fit is not at a header that `take_block` writes.
NotAt-place :
    (size a : ℕ) (bs : List Block) (c : Block)
    → fit size bs ≡ some c
    → NotAt a bs
    → (ltb (size + header_size + 8) c.size ≡ true → a ≢ c.addr + header_size + size)
    → NotAt a (place size bs)
unfolding place cut fit
NotAt-place size a [] c e out ne = tt
NotAt-place size a (b ∷ bs) c e out ne = elim (Bool-cases (fits size b)) [
  | inl here ↦
      let same : b ≡ c = ground arith in
      elim (Bool-cases (ltb (size + header_size + 8) b.size)) [
        | inl split ↦ rw (here, split) (out.0, (elsewhere same split, out.1))
        | inr whole ↦ rw (here, whole) out
      ]
  | inr later ↦ rw later (out.0, NotAt-place size a bs c (ground arith) out.1 ne)
]
  where
    elsewhere : b ≡ c → ltb (size + header_size + 8) b.size ≡ true → b.addr + header_size + size ≢ a
    elsewhere same split q =
        ne (ap (λ d. ltb (size + header_size + 8) d.size) (sym same) ∙ split)
          (sym q ∙ ap (λ d. d.addr + header_size + size) same)

pub Layout-All :
    (bs : List Block) → Layout bs → All (λ d. (header_size ≤ d.addr) × (end_of d < 2 ^ 64)) bs
Layout-All [] lay = tt
Layout-All (b ∷ bs) lay = ((lay.0, lay.1), Layout-All bs lay.3)

pub fits-le : (size : ℕ) (c : Block) → fits size c ≡ true → size ≤ c.size
fits-le size c h = ground arith

-- Neither header that `take_block` may write is at a block apart.
Apart-headers :
    (size : ℕ) (b c : Block)
    → Apart b c
    → (b.addr ≢ c.addr)
      × (ltb (size + header_size + 8) c.size ≡ true → b.addr ≢ c.addr + header_size + size)
Apart-headers size b c apart = (omega arith, λ h. omega (arith, ltb→lt _ _ h))

fit-header :
    (size : ℕ) (at : ℕ → Header) (bs : List Block) (c : Block)
    → fit size bs ≡ some c
    → Chain at bs
    → (at c.addr).size ≡ c.size
unfolding fit
fit-header size at [] c e ch = cc
fit-header size at (b ∷ bs) c e ch = elim (Bool-cases (fits size b)) [
  | inl here ↦
      let same : b ≡ c = ground arith in
      subst (λ d. (at d.addr).size ≡ d.size) same (ap (λ (x : Header). x.size) ch.1)
  | inr later ↦ fit-header size at bs c (ground arith) ch.3
]

take_block-ne :
    (size a : ℕ) (c : Block) (at : ℕ → Header)
    → (at c.addr).size ≡ c.size
    → size ≤ c.size
    → header_size ≤ c.addr
    → end_of c < 2 ^ 64
    → a ≢ c.addr
    → (ltb (size + header_size + 8) c.size ≡ true → a ≢ c.addr + header_size + size)
    → take_block size c.addr at a ≡ at a
unfolding take_block
take_block-ne size a c at e le low high h k =
    let request : u64 (size + header_size + 8) ≡ size + header_size + 8 = omega arith in
    let place : u64 (c.addr + header_size + size) ≡ c.addr + header_size + size = omega arith in
    elim (Bool-cases (ltb (size + header_size + 8) c.size)) [
      | inl split ↦ rw (e, request, split, place) (ground (arith, k split))
      | inr whole ↦ rw (e, request, whole) (ground arith)
    ]

-- The writes of `take_block` at the first fit take it in the chain.
pub Chain-place :
    (size : ℕ) (at : ℕ → Header) (bs : List Block) (c : Block)
    → fit size bs ≡ some c
    → Layout bs
    → Chain at bs
    → Chain (take_block size c.addr at) (place size bs)
unfolding place fit
Chain-place size at [] c e lay ch = cc
Chain-place size at (b ∷ bs) c e lay ch = elim (Bool-cases (fits size b)) [
  | inl here ↦
      let same : b ≡ c = ground arith in
      let enough : size ≤ b.size = ground arith in
      rw (here, ← same, take_block-cut_headers size at b bs enough lay.0 lay.1 ch.1)
        (Chain-cut size at b bs lay ch)
  | inr later ↦
      let e' : fit size bs ≡ some c = ground arith in
      let apart = fit-All (Apart b) size bs c e' lay.2 in
      let (low, high) =
        fit-All (λ d. (header_size ≤ d.addr) × (end_of d < 2 ^ 64)) size bs c e'
          (Layout-All bs lay.3) in
      let enough = fits-le size c (fit-fits size bs c e') in
      let (ne, ne') = Apart-headers size b c apart in
      let kept : take_block size c.addr at b.addr ≡ at b.addr =
        take_block-ne size b.addr c at (fit-header size at bs c e' ch.3) enough low high ne ne' in
      rw later (
        ch.0,
        kept
            ∙ ch.1
            ∙ ap (λ n. record { next = n; size = b.size; is_free = b.free })
                (sym (start-place size bs)),
        NotAt-place size b.addr bs c e' ch.2 ne',
        Chain-place size at bs c e' lay.3 ch.3,
      )
]
