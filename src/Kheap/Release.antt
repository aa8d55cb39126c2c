-- ===== src/Kheap/Release.antt =====
-- What `kfree` of src/kernel/kheap.c promises: the block is out of use, the others stay, and, on a
-- heap without gaps, the blocks still share no byte.
use os_eojin.Base.{
  ℕ, zero, suc, ◌+◌, ◌-◌, ◌^◌, ◌<◌, ◌≡◌, refl, Bool, true, false, List, [], ◌∷◌, arith, ◌==◌, ==_ne,
  if◌then◌else◌, ◌||◌, some, length, ◌∙◌, ap, inl, inr, Bool-cases, subst, sym, ==_iff,
}
use os_eojin.Machine.{u64}
use os_eojin.Kheap.{Header, Heap, header_size, put, join_free, kfree, with_headers}
use os_eojin.Kheap.Chain.{Block, start, NotAt, Chain, Chain-put}
use os_eojin.Kheap.Malloc.{busy}
use os_eojin.Kheap.Free.{joined, join, total, join_free-join, start-join}

-- Some block has its header at `a`.
abbrev pub has : ℕ → List Block → Bool
has a [] = false
has a (b ∷ bs) = (b.addr == a) || has a bs

-- The block at `a` marked as free.
unfoldable pub release : ℕ → List Block → List Block
release a [] = []
release a (b ∷ bs) =
    let rest = release a bs in if b.addr == a then record b { free = true } ∷ bs else b ∷ rest

-- Runs of free blocks of the whole list joined.
unfoldable pub join_all : List Block → List Block
join_all [] = []
join_all (b ∷ bs) = join b bs

start-release : (a : ℕ) (bs : List Block) → start (release a bs) ≡ start bs
unfolding release
start-release a [] = refl
start-release a (b ∷ bs) = ground arith

NotAt-release : (a x : ℕ) (bs : List Block) → NotAt x bs → NotAt x (release a bs)
unfolding release
NotAt-release a x [] out = tt
NotAt-release a x (b ∷ bs) out = elim (Bool-cases (b.addr == a)) [
  | inl here ↦ rw here out
  | inr later ↦ rw later (out.0, NotAt-release a x bs out.1)
]

total-release : (a : ℕ) (bs : List Block) → total (release a bs) ≡ total bs
unfolding release
total-release a [] = refl
total-release a (b ∷ bs) = ground (arith, total-release a bs)

length-release : (a : ℕ) (bs : List Block) → length (release a bs) ≡ length bs
unfolding release
length-release a [] = refl
length-release a (b ∷ bs) = ground (arith, length-release a bs)

-- `header->is_free = 1` at a block of the chain.
abbrev freed : ℕ → (ℕ → Header) → ℕ → Header
freed a at = put a (record (at a) { is_free = true }) at

Chain-release :
    (a : ℕ) (at : ℕ → Header) (bs : List Block)
    → has a bs ≡ true
    → Chain at bs
    → Chain (freed a at) (release a bs)
unfolding release
Chain-release a at [] h ch = cc
Chain-release a at (b ∷ bs) h ch = elim (Bool-cases (b.addr == a)) [
  | inl here ↦
      let same : b.addr ≡ a = (==_iff b.addr a).0 here in
      rw here (
        ch.0,
        ground (arith, ch.1),
        ch.2,
        Chain-put at a _ bs (subst (λ x. NotAt x bs) same ch.2) ch.3,
      )
  | inr later ↦
      let h' : has a bs ≡ true = ground arith in
      rw later (
        ch.0,
        ground arith
            ∙ ch.1
            ∙ ap (λ n. record { next = n; size = b.size; is_free = b.free })
                (sym (start-release a bs)),
        NotAt-release a b.addr bs ch.2,
        Chain-release a at bs h' ch.3,
      )
]

-- The blocks in use but the one at `a`.
unfoldable pub without : ℕ → List (ℕ × ℕ) → List (ℕ × ℕ)
without a [] = []
without a ((x, n) ∷ l) = let rest = without a l in if x == a then rest else (x, n) ∷ rest

without-NotAt : (a : ℕ) (bs : List Block) → NotAt a bs → without a (busy bs) ≡ busy bs
unfolding without
without-NotAt a [] out = refl
without-NotAt a (b ∷ bs) out = ground (arith, without-NotAt a bs out.1, out.0)

busy-release :
    (a : ℕ) (at : ℕ → Header) (bs : List Block)
    → Chain at bs
    → busy (release a bs) ≡ without a (busy bs)
unfolding release without
busy-release a at [] ch = refl
busy-release a at (b ∷ bs) ch = elim (Bool-cases (b.addr == a)) [
  | inl here ↦
      let same : b.addr ≡ a = (==_iff b.addr a).0 here in
      let rest = without-NotAt a bs (subst (λ x. NotAt x bs) same ch.2) in ground (arith, rest)
  | inr later ↦ ground (arith, busy-release a at bs ch.3)
]

busy-join : (b : Block) (bs : List Block) → busy (join b bs) ≡ busy (b ∷ bs)
unfolding join
busy-join b [] = refl
busy-join b (c ∷ bs) = ground (arith, busy-join (joined b c) bs, busy-join c bs)

busy-join_all : (bs : List Block) → busy (join_all bs) ≡ busy bs
unfolding join_all
busy-join_all [] = refl
busy-join_all (b ∷ bs) = busy-join b bs

join_free-end : (fuel : ℕ) (at : ℕ → Header) → join_free (suc fuel) 0 at ≡ some at
unfolding join_free
join_free-end fuel at = refl

join_all-Chain :
    (fuel : ℕ) (at : ℕ → Header) (bs : List Block)
    → length bs < fuel
    → total bs < 2 ^ 64
    → Chain at bs
    → (at' : ℕ → Header) × (join_free fuel (start bs) at ≡ some at') × Chain at' (join_all bs)
unfolding join_all
join_all-Chain zero at bs long small ch = absurd (omega arith)
join_all-Chain (suc fuel) at [] long small ch = (at, join_free-end fuel at, tt)
join_all-Chain (suc fuel) at (b ∷ bs) long small ch =
    let joins = join_free-join (suc fuel) at b bs (omega arith) small ch in
    (joins.result, joins.ends, joins.chain)

start-join_all : (bs : List Block) → start (join_all bs) ≡ start bs
unfolding join_all
start-join_all [] = refl
start-join_all (b ∷ bs) = start-join b bs

-- With fuel for every block, in a chain of less than 2^64 bytes, kfree of a block of the chain
-- ends; the block is out of use, every other block in use stays, and the headers form the chain
-- with its runs of free blocks joined.
pub kfree_lem :
    (fuel a : ℕ) (h : Heap) (bs : List Block)
    → length bs < fuel
    → total bs < 2 ^ 64
    → a + header_size < 2 ^ 64
    → has a bs ≡ true
    → h.head ≡ start bs
    → Chain h.at bs
    → (h' : Heap) × (kfree fuel (a + header_size) h ≡ some h')
      × (h'.head ≡ start (join_all (release a bs)))
      × Chain h'.at (join_all (release a bs))
      × (busy (join_all (release a bs)) ≡ without a (busy bs))
unfolding kfree
kfree_lem fuel a h bs long small bound here first ch =
    let back : u64 (a + header_size + 2 ^ 64 - header_size) ≡ a = omega (arith, bound) in
    let (at', ends, chain) =
      join_all-Chain fuel (freed a h.at) (release a bs) (omega (arith, long, length-release a bs))
        (omega (arith, small, total-release a bs)) (Chain-release a h.at bs here ch) in
    (
      record h { at = at' },
      rw (back, ==_ne (a + header_size) 0 (omega arith))
          (ap (λ p. with_headers h (join_free fuel p (freed a h.at)))
              (first ∙ sym (start-release a bs))
            ∙ ap (with_headers h) ends),
      first ∙ sym (start-release a bs) ∙ sym (start-join_all (release a bs)),
      chain,
      busy-join_all (release a bs) ∙ busy-release a h.at bs ch,
    )
