-- ===== src/Kheap/Tests.antt =====
-- The theorems about src/kernel/kheap.c at a heap of one page.
use os_eojin.Base.{
  ◌+◌, ◌*◌, ◌-◌, ◌^◌, ◌≡◌, refl, true, false, some, none, List, [], ◌∷◌, arith, if◌then◌else◌, ltb,
  ◌==◌,
}
use os_eojin.Base.Bits.{all_below, all_below_sound}
use os_eojin.Machine.{Machine}
use os_eojin.Pmm.Alloc.{used, IsReserved}
use os_eojin.Kheap.Gapless.{kfree-IsHeap}
use os_eojin.Pmm.{pmm_alloc_block, test_bit}
use os_eojin.Kheap.{Heap, header_size, kmalloc, kfree}
use os_eojin.Kheap.Chain.{Block, Chain, start}
use os_eojin.Kheap.Fit.{fit}
use os_eojin.Kheap.Malloc.{busy, Taken, IsHeap, kmalloc-Taken, kmalloc_no_fit}
use os_eojin.Kheap.Release.{release, join_all, without, kfree_lem}

-- 32MB reserved and eight blocks more.
abbrev machine : Machine
machine = record {
  mem = λ a. 0;
  bitmap = λ i. if ltb i 256 then 2 ^ 32 - 1 else 0;
  total_blocks = 8200;
  bitmap_size = 1025;
  console = [];
}

-- A block in use, then a free one.
abbrev used_block : Block
used_block = record { addr = 4096; size = 512; free = false }

abbrev free_block : Block
free_block = record { addr = 4632; size = 3536; free = true }

abbrev blocks : List Block
blocks = used_block ∷ free_block ∷ []

abbrev heap : Heap
heap = record {
  machine = machine;
  head = 4096;
  at = λ a.
      if a == 4096
      then record { next = 4632; size = 512; is_free = false }
      else record { next = 0; size = 3536; is_free = true };
}

heap-IsHeap : IsHeap heap blocks
heap-IsHeap = record {
  first = refl;
  chain = (omega arith, refl, (omega arith, tt), (omega arith, refl, tt, tt));
  layout = (omega arith, omega arith, (omega arith, tt), (omega arith, omega arith, tt, tt));
}

fits_here : fit 512 blocks ≡ some free_block
unfolding fit
fits_here = refl

fits_nowhere : fit 4000 blocks ≡ none
unfolding fit
fits_nowhere = refl

kmalloc-Taken_example :
    (h' : Heap) × (bs' : List Block) × (kmalloc 5 512 heap ≡ some (4632 + header_size, h'))
    × IsHeap h' bs'
    × Taken 512 4632 (busy blocks) (busy bs')
kmalloc-Taken_example =
    kmalloc-Taken 5 512 heap blocks free_block (omega arith) (omega arith) heap-IsHeap fits_here

kmalloc_no_fit_example :
    (h' : Heap) × (kmalloc 5 4000 heap ≡ some (0, h'))
    × (h'.machine.bitmap ≡ (pmm_alloc_block heap.machine).1.bitmap)
kmalloc_no_fit_example =
    kmalloc_no_fit 5 4000 heap blocks (omega arith) (omega arith) heap-IsHeap fits_nowhere

kfree_lem_example :
    (h' : Heap) × (kfree 5 (4096 + header_size) heap ≡ some h')
    × (h'.head ≡ start (join_all (release 4096 blocks)))
    × Chain h'.at (join_all (release 4096 blocks))
    × (busy (join_all (release 4096 blocks)) ≡ without 4096 (busy blocks))
kfree_lem_example =
    kfree_lem 5 4096 heap blocks (omega arith) (omega arith) (omega arith) refl refl
      heap-IsHeap.chain

machine_table : all_below 8192 (used machine) ≡ true
unfolding used test_bit
machine_table = refl

machine-IsReserved : IsReserved machine
machine-IsReserved j h = all_below_sound 8192 (used machine) j machine_table h

alloc_first : (pmm_alloc_block machine).0 ≡ 8192 * 4096
unfolding pmm_alloc_block test_bit
alloc_first = refl

kfree-IsHeap_example :
    (h' : Heap) × (bs' : List Block) × (kfree 5 (4096 + header_size) heap ≡ some h')
    × IsHeap h' bs'
    × (busy bs' ≡ without 4096 (busy blocks))
kfree-IsHeap_example =
    kfree-IsHeap 5 4096 heap blocks (omega arith) (omega arith) (omega arith) refl (refl, tt)
      heap-IsHeap
