-- ===== src/Kheap/Malloc.antt =====
-- What `kmalloc` of src/kernel/kheap.c promises, on both of its ways.
use os_eojin.Base.{
  ℕ, ◌+◌, ◌-◌, ◌^◌, ◌≤◌, ◌<◌, ◌≡◌, refl, true, false, List, [], ◌∷◌, ◌++◌, arith, ◌==◌, ==_ne,
  if◌then◌else◌, ltb, none, some, length, ◌∙◌, ap, All, inl, inr, Bool-cases, subst, codes, ltb→lt,
  sym,
}
use os_eojin.Machine.{u64, kprint}
use os_eojin.Pmm.{pmm_alloc_block}
use os_eojin.Kheap.{
  Heap, header_size, found, missing, first_fit, take_block, finish, kmalloc, extend,
}
use os_eojin.Kheap.Chain.{Block, start, Chain, last_addr}
use os_eojin.Kheap.Fit.{
  fits, fit, fit-All, cut, place, end_of, Apart, Layout, outcome, first_fit-fit,
}
use os_eojin.Kheap.Alloc.{Chain-place, start-place, Layout-All, fits-le}

All-Apart-inside :
    (b x : Block) (bs : List Block)
    → b.addr ≤ x.addr
    → end_of x ≤ end_of b
    → All (Apart b) bs
    → All (Apart x) bs
All-Apart-inside b x [] h k apart = tt
All-Apart-inside b x (c ∷ bs) h k apart =
    (omega (arith, apart.0), All-Apart-inside b x bs h k apart.1)

Apart-place :
    (size : ℕ) (b : Block) (bs : List Block) → All (Apart b) bs → All (Apart b) (place size bs)
unfolding place cut
Apart-place size b [] apart = tt
Apart-place size b (c ∷ bs) apart = elim (Bool-cases (fits size c)) [
  | inl here ↦ elim (Bool-cases (ltb (size + header_size + 8) c.size)) [
    | inl split ↦
        let less = ltb→lt _ _ split in
        rw (here, split) (omega (arith, apart.0, less), (omega (arith, apart.0, less), apart.1))
    | inr whole ↦ rw (here, whole) apart
  ]
  | inr later ↦ rw later (apart.0, Apart-place size b bs apart.1)
]

-- Taking the first fit keeps the blocks apart.
Layout-place : (size : ℕ) (bs : List Block) → Layout bs → Layout (place size bs)
unfolding place cut
Layout-place size [] lay = tt
Layout-place size (b ∷ bs) lay = elim (Bool-cases (fits size b)) [
  | inl here ↦ elim (Bool-cases (ltb (size + header_size + 8) b.size)) [
    | inl split ↦
        let less = ltb→lt _ _ split in
        let part : Block = record { addr = b.addr; size = size; free = false } in
        let rest : Block = record {
          addr = b.addr + header_size + size;
          size = b.size - size - header_size;
          free = true;
        } in
        rw (here, split)
          (
            lay.0,
            omega (arith, less, lay.1),
            (omega arith, All-Apart-inside b part bs (omega arith) (omega (arith, less)) lay.2),
            (
              omega (arith, lay.0),
              omega (arith, less, lay.1),
              All-Apart-inside b rest bs (omega arith) (omega (arith, less)) lay.2,
              lay.3,
            ),
          )
    | inr whole ↦ rw (here, whole) lay
  ]
  | inr later ↦ rw later (lay.0, lay.1, Apart-place size b bs lay.2, Layout-place size bs lay.3)
]

-- The blocks in use, by address and size.
abbrev pub busy : List Block → List (ℕ × ℕ)
busy [] = []
busy (b ∷ bs) = if b.free then busy bs else (b.addr, b.size) ∷ busy bs

-- One block of at least `size` bytes at `a` came into use, and no other changed.
pub record Taken (size a : ℕ) (before after : List (ℕ × ℕ)) : Type 0 where
  pub front : List (ℕ × ℕ)
  pub back : List (ℕ × ℕ)
  pub got : ℕ
  pub enough : size ≤ got
  pub was : before ≡ front ++ back
  pub now : after ≡ front ++ ((a, got) ∷ back)

Taken-cons :
    (size a : ℕ) (b : Block) {before after : List (ℕ × ℕ)}
    → Taken size a before after
    → Taken size a
        (if b.free then before else (b.addr, b.size) ∷ before)
        (if b.free then after else (b.addr, b.size) ∷ after)
Taken-cons size a b t = elim (Bool-cases b.free) [
  | inl free ↦ rw free t
  | inr used ↦ rw used (record {
    front = (b.addr, b.size) ∷ t.front;
    back = t.back;
    got = t.got;
    enough = t.enough;
    was = ap (λ l. (b.addr, b.size) ∷ l) t.was;
    now = ap (λ l. (b.addr, b.size) ∷ l) t.now;
  })
]

busy-place :
    (size : ℕ) (bs : List Block) (c : Block)
    → fit size bs ≡ some c
    → Taken size c.addr (busy bs) (busy (place size bs))
unfolding place cut fit
busy-place size [] c e = cc
busy-place size (b ∷ bs) c e = elim (Bool-cases (fits size b)) [
  | inl here ↦
      let same : b ≡ c = ground arith in
      let free : b.free ≡ true = ground arith in
      let enough = fits-le size b here in
      subst (λ d. Taken size d.addr (busy (b ∷ bs)) (busy (place size (b ∷ bs)))) same
        (elim (Bool-cases (ltb (size + header_size + 8) b.size)) [
          | inl split ↦
              rw (here, split, free)
                (record {
                  front = [];
                  back = busy bs;
                  got = size;
                  enough = omega arith;
                  was = refl;
                  now = refl;
                })
          | inr whole ↦
              rw (here, whole, free)
                (record {
                  front = [];
                  back = busy bs;
                  got = b.size;
                  enough = enough;
                  was = refl;
                  now = refl;
                })
        ])
  | inr later ↦ rw later (Taken-cons size c.addr b (busy-place size bs c (ground arith)))
]

-- A heap that is a chain of blocks that share no byte.
pub record IsHeap (h : Heap) (bs : List Block) : Type 0 where
  pub first : h.head ≡ start bs
  pub chain : Chain h.at bs
  pub layout : Layout bs

-- With fuel for every block, on a heap that is a chain of blocks that share no byte, where a free
-- block is large enough for a size that is not 0: kmalloc returns the address behind the header of
-- the first such block, which comes into use with at least the size asked for, while every block
-- in use stays as it is; the heap is such a chain again.
pub kmalloc-Taken :
    (fuel size : ℕ) (h : Heap) (bs : List Block) (c : Block)
    → 0 < size
    → length bs < fuel
    → IsHeap h bs
    → fit size bs ≡ some c
    → (h' : Heap) × (bs' : List Block) × (kmalloc fuel size h ≡ some (c.addr + header_size, h'))
      × IsHeap h' bs'
      × Taken size c.addr (busy bs) (busy bs')
unfolding kmalloc finish
kmalloc-Taken fuel size h bs c pos long heap e =
    let (low, high) =
      fit-All (λ d. (header_size ≤ d.addr) × (end_of d < 2 ^ 64)) size bs c e
        (Layout-All bs heap.layout) in
    let pointer : u64 (c.addr + header_size) ≡ c.addr + header_size = omega arith in
    let search = first_fit-fit fuel size h.head h.at bs long heap.chain in
    let ends : first_fit fuel size h.at h.head h.head ≡ found c.addr =
      ap (λ p. first_fit fuel size h.at p h.head) heap.first ∙ search ∙ ap (outcome h.head bs) e in
    (
      record h { at = take_block size c.addr h.at },
      place size bs,
      rw (==_ne size 0 (omega arith)) (ap (finish size h) ends ∙ rw pointer),
      record {
        first = heap.first ∙ sym (start-place size bs);
        chain = Chain-place size h.at bs c e heap.layout heap.chain;
        layout = Layout-place size bs heap.layout;
      },
      busy-place size bs c e,
    )

-- With fuel for every block, on a heap that is a chain of blocks that share no byte, where no free
-- block is large enough for a size that is not 0: kmalloc returns 0, also when it grows the heap
-- by a page that it gets.
pub kmalloc_no_fit :
    (fuel size : ℕ) (h : Heap) (bs : List Block)
    → 0 < size
    → length bs < fuel
    → IsHeap h bs
    → fit size bs ≡ none
    → (h' : Heap) × (kmalloc fuel size h ≡ some (0, h'))
      × (h'.machine.bitmap ≡ (pmm_alloc_block h.machine).1.bitmap)
unfolding kmalloc finish extend
kmalloc_no_fit fuel size h bs pos long heap e =
    let search = first_fit-fit fuel size h.head h.at bs long heap.chain in
    let ends : first_fit fuel size h.at h.head h.head ≡ missing (last_addr h.head bs) =
      ap (λ p. first_fit fuel size h.at p h.head) heap.first ∙ search ∙ ap (outcome h.head bs) e in
    let (page, m) = pmm_alloc_block h.machine in
    elim (Bool-cases (page == 0)) [
      | inl full ↦ (
        record h { machine = kprint (codes "KHEAP: PMM OOM! Cannot expand heap.\n") m },
        rw (==_ne size 0 (omega arith)) (ap (finish size h) ends ∙ rw full),
        refl,
      )
      | inr got ↦ (
        extend page (last_addr h.head bs) (record h { machine = m }),
        rw (==_ne size 0 (omega arith)) (ap (finish size h) ends ∙ rw got),
        ground arith,
      )
    ]
