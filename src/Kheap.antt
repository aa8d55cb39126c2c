-- ===== src/Kheap.antt =====
-- src/kernel/kheap.c: the kernel heap, a linked list of block headers. A header is read and written
-- through its address; what callers keep behind a header is not part of this store.
-- The loops follow `next` pointers, so they run on fuel.
pub mod Chain
pub mod Fit
pub mod Alloc
pub mod Malloc
pub mod Free
pub mod Release
pub mod Start
pub mod Gapless
mod Tests
use os_eojin.Base.{
  ℕ, zero, suc, ◌+◌, ◌-◌, ◌^◌, Bool, true, false, not, ◌&&◌, ltb, leb, ◌==◌, if◌then◌else◌, codes,
  List, Option, none, some,
}
use os_eojin.Machine.{Machine, kprint, u64}
use os_eojin.Pmm.{pmm_alloc_block, block_size}

-- `block_header_t`
pub record Header : Type 0 where
  pub next : ℕ
  pub size : ℕ
  pub is_free : Bool

-- sizeof(block_header_t)
abbrev pub header_size : ℕ
header_size = 24

pub record Heap : Type 0 where
  pub machine : Machine
  pub head : ℕ
  pub at : ℕ → Header

-- `*p = header`
abbrev pub put : ℕ → Header → (ℕ → Header) → ℕ → Header
put p header at a = if p == a then header else at a

abbrev pub fresh_page : Header
fresh_page = record { next = 0; size = block_size - header_size; is_free = true }

unfoldable pub init_kheap : Heap → Heap
init_kheap h =
    let (start, m) = pmm_alloc_block h.machine in
    if start == 0
    then record h { machine = kprint (codes "KHEAP: Init failed (OOM)\n") m }
    else record h {
      machine = kprint (codes "HEAP Initialized.\n") m;
      head = start;
      at = put start fresh_page h.at;
    }

-- How the first-fit loop ends: at a block, or behind the last one, which it remembers.
pub data Search : Type 0 where
  found : ℕ → Search
  missing : ℕ → Search
  out_of_fuel : Search

pub first_fit : (fuel size : ℕ) → (ℕ → Header) → (curr last : ℕ) → Search
first_fit zero size at curr last = out_of_fuel
first_fit (suc fuel) size at curr last =
    let rest = first_fit fuel size at (at curr).next curr in
    if curr == 0
    then missing last
    else if (at curr).is_free && leb size (at curr).size
    then found curr
    else rest

-- The block at `curr` taken, and split if what is left holds a header and more than 8 bytes.
pub take_block : (size curr : ℕ) → (ℕ → Header) → ℕ → Header
take_block size curr at =
    let block = at curr in
    let rest = u64 (curr + header_size + size) in
    let new_block : Header = record {
      next = block.next;
      size = u64 (block.size + 2 ^ 64 - size - header_size);
      is_free = true;
    } in
    if ltb (u64 (size + header_size + 8)) block.size
    then put curr (record { next = rest; size = size; is_free = false }) (put rest new_block at)
    else put curr (record block { is_free = false }) at

-- The heap grown by the page at `new_block`, behind the block `last`.
pub extend : (new_block last : ℕ) → Heap → Heap
extend new_block last h =
    let at = put new_block fresh_page h.at in
    let joined = record (at last) { next = new_block } in
    let grown = record joined {
      size = u64 (joined.size + (header_size + fresh_page.size));
      next = fresh_page.next;
    } in
    let last_end = u64 (last + header_size + joined.size) in
    if last == 0
    then record h { head = new_block; at = at }
    else if joined.is_free && last_end == new_block
    then record h { at = put last grown at }
    else record h { at = put last joined at }

-- `kmalloc` behind its search: the pointer that it returns, and the heap.
pub finish : ℕ → Heap → Search → Option (ℕ × Heap)
finish size h out_of_fuel = none
finish size h (found curr) =
    some (u64 (curr + header_size), record h { at = take_block size curr h.at })
finish size h (missing last) =
    let (new_page, m) = pmm_alloc_block h.machine in
    if new_page == 0
    then some (0, record h { machine = kprint (codes "KHEAP: PMM OOM! Cannot expand heap.\n") m })
    else some (0, extend new_page last (record h { machine = m }))

-- `none` means that the fuel ran out.
pub kmalloc : (fuel size : ℕ) → Heap → Option (ℕ × Heap)
unfolding first_fit take_block extend finish
kmalloc fuel size h =
    if size == 0 then some (0, h) else finish size h (first_fit fuel size h.at h.head h.head)

-- The loop of `kfree` that joins neighbours in the list that are both free.
pub join_free : (fuel curr : ℕ) → (ℕ → Header) → Option (ℕ → Header)
join_free zero curr at = none
join_free (suc fuel) curr at =
    let block = at curr in
    let next = at block.next in
    let joined = record block {
      size = u64 (block.size + (header_size + next.size));
      next = next.next;
    } in
    let again = join_free fuel curr (put curr joined at) in
    let on = join_free fuel block.next at in
    if curr == 0
    then some at
    else if block.next == 0
    then some at
    else if block.is_free && next.is_free
    then again
    else on

-- The heap with its headers replaced.
abbrev pub with_headers : Heap → Option (ℕ → Header) → Option Heap
with_headers h none = none
with_headers h (some at) = some (record h { at = at })

pub kfree : (fuel ptr : ℕ) → Heap → Option Heap
unfolding join_free
kfree fuel ptr h =
    let header = u64 (ptr + 2 ^ 64 - header_size) in
    let at = put header (record (h.at header) { is_free = true }) h.at in
    let rest = with_headers h (join_free fuel h.head at) in if ptr == 0 then some h else rest
