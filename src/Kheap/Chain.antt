-- ===== src/Kheap/Chain.antt =====
-- The list of blocks that the headers of src/kernel/kheap.c link together.
use os_eojin.Base.{ℕ, ◌≡◌, ◌≢◌, Bool, List, [], ◌∷◌, arith}
use os_eojin.Kheap.{Header, put}

-- A block as a whole: where its header is, how many bytes follow it, and whether it is free.
pub record Block : Type 0 where
  pub addr : ℕ
  pub size : ℕ
  pub free : Bool

-- The pointer to the first block of a list.
abbrev pub start : List Block → ℕ
start [] = 0
start (b ∷ bs) = b.addr

abbrev pub header : Block → List Block → Header
header b rest = record { next = start rest; size = b.size; is_free = b.free }

-- No block of the list has its header at `a`.
abbrev pub NotAt : ℕ → List Block → Type 0
NotAt a [] = Unit
NotAt a (b ∷ bs) = (b.addr ≢ a) × NotAt a bs

-- The headers link exactly these blocks, at different addresses.
abbrev pub Chain : (ℕ → Header) → List Block → Type 0
Chain at [] = Unit
Chain at (b ∷ bs) = (b.addr ≢ 0) × (at b.addr ≡ header b bs) × NotAt b.addr bs × Chain at bs

-- A write elsewhere leaves a chain.
pub Chain-put :
    (at : ℕ → Header) (a : ℕ) (v : Header) (bs : List Block)
    → NotAt a bs
    → Chain at bs
    → Chain (put a v at) bs
Chain-put at a v [] out c = tt
Chain-put at a v (b ∷ bs) out c = (c.0, ground arith, c.2, Chain-put at a v bs out.1 c.3)

-- The last block's address, or `last` if there is none: what the loop of `kmalloc` remembers.
abbrev pub last_addr : ℕ → List Block → ℕ
last_addr last [] = last
last_addr last (b ∷ bs) = last_addr b.addr bs
