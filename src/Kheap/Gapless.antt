-- ===== src/Kheap/Gapless.antt =====
-- `kfree` of src/kernel/kheap.c on a heap whose blocks follow each other in memory as in the list.
use os_eojin.Base.{
  ℕ, ◌+◌, ◌^◌, ◌<◌, ◌≡◌, true, List, [], ◌∷◌, arith, ◌==◌, if◌then◌else◌, ◌&&◌, some, length, All,
  inl, inr, Bool-cases, subst,
}
use os_eojin.Kheap.{Heap, header_size, kfree}
use os_eojin.Kheap.Chain.{Block}
use os_eojin.Kheap.Fit.{end_of, Apart, Layout}
use os_eojin.Kheap.Malloc.{busy, IsHeap}
use os_eojin.Kheap.Free.{joined, join, total}
use os_eojin.Kheap.Release.{has, release, join_all, without, kfree_lem}

-- Each block ends where the next one starts.
abbrev pub Gapless : List Block → Type 0
Gapless [] = Unit
Gapless (b ∷ []) = Unit
Gapless (b ∷ c ∷ bs) = (end_of b ≡ c.addr) × Gapless (c ∷ bs)

Gapless-joined : (b c : Block) (bs : List Block) → Gapless (b ∷ c ∷ bs) → Gapless (joined b c ∷ bs)
Gapless-joined b c [] gapless = tt
Gapless-joined b c (d ∷ bs) gapless = (omega (arith, gapless.0, gapless.1.0), gapless.1.1)

Apart-joined :
    (b c : Block) (bs : List Block)
    → end_of b ≡ c.addr
    → All (Apart b) bs
    → All (Apart c) bs
    → All (Apart (joined b c)) bs
Apart-joined b c [] next apart apart' = tt
Apart-joined b c (d ∷ bs) next apart apart' =
    (ground (arith, apart.0, apart'.0, next), Apart-joined b c bs next apart.1 apart'.1)

Apart-join :
    (x b : Block) (bs : List Block)
    → Gapless (b ∷ bs)
    → All (Apart x) (b ∷ bs)
    → All (Apart x) (join b bs)
unfolding join
Apart-join x b [] gapless apart = apart
Apart-join x b (c ∷ bs) gapless apart = elim (Bool-cases (b.free && c.free)) [
  | inl both ↦ rw both (
      Apart-join x (joined b c) bs (Gapless-joined b c bs gapless)
        (ground (arith, apart.0, apart.1.0, gapless.0), apart.1.1))
  | inr split ↦ rw split (apart.0, Apart-join x c bs gapless.1 apart.1)
]

Layout-join :
    (b : Block) (bs : List Block) → Gapless (b ∷ bs) → Layout (b ∷ bs) → Layout (join b bs)
unfolding join
Layout-join b [] gapless lay = lay
Layout-join b (c ∷ bs) gapless lay = elim (Bool-cases (b.free && c.free)) [
  | inl both ↦ rw both (
      Layout-join (joined b c) bs (Gapless-joined b c bs gapless) (
        lay.0,
        omega (arith, lay.3, gapless.0),
        Apart-joined b c bs gapless.0 lay.2.1 lay.3.2,
        lay.3.3,
      ))
  | inr split ↦
      rw split (lay.0, lay.1, Apart-join b c bs gapless.1 lay.2, Layout-join c bs gapless.1 lay.3)
]

-- A block marked as free is where it was.
All-Apart-release :
    (a : ℕ) (x : Block) (bs : List Block) → All (Apart x) bs → All (Apart x) (release a bs)
unfolding release
All-Apart-release a x [] apart = tt
All-Apart-release a x (b ∷ bs) apart = elim (Bool-cases (b.addr == a)) [
  | inl here ↦ rw here apart
  | inr later ↦ rw later (apart.0, All-Apart-release a x bs apart.1)
]

Layout-release : (a : ℕ) (bs : List Block) → Layout bs → Layout (release a bs)
unfolding release
Layout-release a [] lay = tt
Layout-release a (b ∷ bs) lay = elim (Bool-cases (b.addr == a)) [
  | inl here ↦ rw here lay
  | inr later ↦ rw later (lay.0, lay.1, All-Apart-release a b bs lay.2, Layout-release a bs lay.3)
]

Gapless-release : (a : ℕ) (bs : List Block) → Gapless bs → Gapless (release a bs)
unfolding release
Gapless-release a [] gapless = tt
Gapless-release a (b ∷ []) gapless = elim (Bool-cases (b.addr == a)) [
  | inl here ↦ rw here tt
  | inr later ↦ rw later tt
]
Gapless-release a (b ∷ c ∷ bs) gapless =
    let rest = Gapless-release a (c ∷ bs) gapless.1 in
    elim (Bool-cases (b.addr == a)) [
      | inl here ↦ rw here gapless
      | inr later ↦ elim (Bool-cases (c.addr == a)) [
        | inl next ↦ rw (later, next) gapless
        | inr far ↦
            rw (later, far)
              (
                gapless.0,
                subst (λ t. Gapless (if t then record c { free = true } ∷ bs else c ∷ release a bs))
                    far rest,
              )
      ]
    ]

Layout-join_all : (bs : List Block) → Gapless bs → Layout bs → Layout (join_all bs)
unfolding join_all
Layout-join_all [] gapless lay = tt
Layout-join_all (b ∷ bs) gapless lay = Layout-join b bs gapless lay

-- On a heap that is a chain of blocks that share no byte and leave no gap, with fuel for every block,
-- less than 2^64 bytes in all and a block below 2^64 - 24: kfree of that block ends with a chain of
-- blocks that share no byte, in which that block is out of use and every other block in use stays.
pub kfree-IsHeap :
    (fuel a : ℕ) (h : Heap) (bs : List Block)
    → length bs < fuel
    → total bs < 2 ^ 64
    → a + header_size < 2 ^ 64
    → has a bs ≡ true
    → Gapless bs
    → IsHeap h bs
    → (h' : Heap) × (bs' : List Block) × (kfree fuel (a + header_size) h ≡ some h')
      × IsHeap h' bs'
      × (busy bs' ≡ without a (busy bs))
kfree-IsHeap fuel a h bs long small bound here gapless heap =
    let (h', ends, first, chain, kept) =
      kfree_lem fuel a h bs long small bound here heap.first heap.chain in
    (
      h',
      join_all (release a bs),
      ends,
      record {
        first = first;
        chain = chain;
        layout =
            Layout-join_all (release a bs) (Gapless-release a bs gapless)
              (Layout-release a bs heap.layout);
      },
      kept,
    )
