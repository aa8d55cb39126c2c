-- ===== src/Kheap/Start.antt =====
-- The heap that `init_kheap` of src/kernel/kheap.c makes.
use os_eojin.Base.{◌-◌, ◌^◌, ◌<◌, ◌≢◌, refl, true, [], ◌∷◌, arith, ==_ne}
use os_eojin.Pmm.{pmm_alloc_block, block_size}
use os_eojin.Pmm.Alloc.{IsReserved, pmm_alloc_block-Block}
use os_eojin.Kheap.{Heap, header_size, init_kheap}
use os_eojin.Kheap.Malloc.{IsHeap}

-- While the first 32MB are reserved and memory has less than 2^52 blocks, `init_kheap` with a page that
-- it gets makes the heap of one free block, which fills the page behind its header.
pub init_kheap-IsHeap :
    (h : Heap)
    → IsReserved h.machine
    → h.machine.total_blocks < 2 ^ 52
    → (pmm_alloc_block h.machine).0 ≢ 0
    → let page = (pmm_alloc_block h.machine).0 in
      IsHeap
        (init_kheap h)
        (record { addr = page; size = block_size - header_size; free = true } ∷ [])
unfolding init_kheap
init_kheap-IsHeap h reserved small got =
    let page = (pmm_alloc_block h.machine).0 in
    let block = pmm_alloc_block-Block h.machine reserved got in
    rw (==_ne page 0 got) (record {
      first = refl;
      chain = (got, ground arith, tt, tt);
      layout =
          (omega (arith, block.high), omega (arith, block.address, block.taken, small), tt, tt);
    })
