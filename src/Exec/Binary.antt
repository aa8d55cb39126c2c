-- ===== src/Exec/Binary.antt =====
-- The whole loop of exec in src/kernel/kernel.c over a flat binary.
use os_eojin.Base.{
  ℕ, zero, suc, ◌+◌, ◌*◌, ◌%◌, ◌^◌, ◌≤◌, ◌<◌, ◌≡◌, ◌≢◌, refl, Bool, true, false, some, inl, inr,
  ◌==◌, ltb, arith, Bool-cases, ◌∙◌, subst, ==_ne, ==_iff,
}
use os_eojin.Machine.{Machine, u64}
use os_eojin.Pmm.{pmm_alloc_block}
use os_eojin.Vmm.Tree.{walk, IsReached, IsTree}
use os_eojin.Elf.{end_vaddr}
use os_eojin.Elf.Load.{IsKept, Loaded, nothing-Loaded, full-Loaded}
use os_eojin.Elf.Segments.{both-Loaded, IsKept-Loaded}
use os_eojin.Exec.Flat.{flat, flat_page, page-Loaded}
use os_eojin.Exec.{flat_binary_vaddr, load_flat}

module _ (load_addr root size : ℕ) (small : size < 2 ^ 32) (near : load_addr + size < 2 ^ 64) where
  load_flat-done :
      (fuel offset : ℕ) (m : Machine)
      → size ≤ offset
      → load_flat (suc fuel) (root * 4096) load_addr size offset m ≡ some (true, m)
  unfolding load_flat
  load_flat-done fuel offset m done =
      let stop : ltb offset size ≡ false = ground arith in rw stop refl

  load_flat-full :
      (fuel offset : ℕ) (m : Machine)
      → offset < size
      → (pmm_alloc_block m).0 ≡ 0
      → load_flat (suc fuel) (root * 4096) load_addr size offset m
        ≡ some (false, (pmm_alloc_block m).1)
  unfolding load_flat
  load_flat-full fuel offset m more e =
      let go : ltb offset size ≡ true = ground arith in rw (go, e) refl

  load_flat-more :
      (fuel offset : ℕ) (m : Machine)
      → offset < size
      → (pmm_alloc_block m).0 ≢ 0
      → load_flat (suc fuel) (root * 4096) load_addr size offset m
        ≡ load_flat fuel
            (root * 4096)
            load_addr
            size
            (offset + 4096)
            (flat_page root load_addr size offset m)
  unfolding load_flat
  load_flat-more fuel offset m more got =
      let go : ltb offset size ≡ true = ground arith in
      let plain : u64 (offset + 4096) ≡ offset + 4096 = omega arith in
      rw (go, ==_ne (pmm_alloc_block m).0 0 got, plain) refl

  -- At a tree of tables, for a file of less than 2^32 bytes that ends below 2^64, in blocks that are in use and hold
  -- no tables, with fuel for its pages behind `offset`, the start of one, and one round more: the loop of exec over a flat binary ends. Unless
  -- every block is in use then, each address from 256MB on in the pages of the file behind `offset` is
  -- mapped to a block with the byte of the file, or 0 behind its end; every other page is as it was in
  -- every address space, and so is what was in use and no table.
  pub load_flat-Loaded :
      (fuel offset : ℕ) (level : ℕ → ℕ) (m : Machine)
      → IsTree level m
      → level root ≡ 4
      → IsKept load_addr (flat size) level m
      → offset % 4096 ≡ 0
      → flat_binary_vaddr + offset ≤ end_vaddr (flat size)
      → size + 4096 ≤ offset + fuel * 4096
      → (ok : Bool) × (m' : Machine) × (load_flat fuel (root * 4096) load_addr size offset m
          ≡ some (ok, m'))
        × Loaded load_addr
            (flat size)
            root
            level
            m
            (flat_binary_vaddr + offset)
            (end_vaddr (flat size))
            ok
            m'
  load_flat-Loaded zero offset level m tree four file aligned le enough = absurd (omega arith)
  load_flat-Loaded (suc fuel) offset level m tree four file aligned le enough =
      elim (Bool-cases (ltb offset size)) [
        | inr stop ↦
            let last : end_vaddr (flat size) ≤ flat_binary_vaddr + offset =
              ground (arith, stop, aligned) in
            (
              true,
              m,
              load_flat-done fuel offset m (ground (arith, stop)),
              nothing-Loaded load_addr (flat size) root level m (flat_binary_vaddr + offset)
                  (end_vaddr (flat size)) tree last,
            )
        | inl go ↦
            let more : offset < size = ground (arith, go) in
            elim (Bool-cases ((pmm_alloc_block m).0 == 0)) [
              | inl zero' ↦
                  let e = (==_iff (pmm_alloc_block m).0 0).0 zero' in
                  (
                    false,
                    (pmm_alloc_block m).1,
                    load_flat-full fuel offset m more e,
                    full-Loaded load_addr (flat size) root level m (flat_binary_vaddr + offset)
                        (end_vaddr (flat size)) (pmm_alloc_block m).1.console tree e,
                  )
              | inr got' ↦
                  let got : (pmm_alloc_block m).0 ≢ 0 = λ e. absurd (ground (arith, got')) in
                  let m1 = flat_page root load_addr size offset m in
                  let now =
                    page-Loaded load_addr root size offset level m small near more aligned tree four
                      file got in
                  let at : flat_binary_vaddr + (offset + 4096) ≡ flat_binary_vaddr + offset + 4096 =
                    omega arith in
                  let next : flat_binary_vaddr + offset + 4096 ≤ end_vaddr (flat size) =
                    omega (arith, aligned) in
                  let (ok, m', e, later) =
                    load_flat-Loaded fuel (offset + 4096) now.level' m1 now.tree
                      (now.extends root (omega (arith, four)) ∙ four)
                      (IsKept-Loaded load_addr root (flat_binary_vaddr + offset)
                        (flat_binary_vaddr + offset + 4096) (flat size) level m m1 true file now)
                      (omega (arith, aligned)) (omega (arith, next)) (omega arith) in
                  let later' =
                    subst
                      (λ a.
                        Loaded load_addr (flat size) root now.level' m1 a (end_vaddr (flat size)) ok
                          m')
                      at later in
                  (
                    ok,
                    m',
                    load_flat-more fuel offset m more got ∙ e,
                    both-Loaded load_addr root (flat_binary_vaddr + offset)
                        (flat_binary_vaddr + offset + 4096) (end_vaddr (flat size)) (flat size)
                        level m m1 m' ok file four (omega arith) next (omega arith) now later'
                        (omega (arith, aligned)),
                  )
            ]
      ]

  -- At a tree of tables, for a file of less than 2^32 bytes in blocks that are in use and hold no tables, while the
  -- file, all blocks and all tables lie below 256MB, with fuel for its pages and one round more:
  -- the loop of exec over a flat binary ends. Unless every block is in use then, each address from 256MB
  -- on in the pages of the file is mapped to a block with the byte of the file, or 0 behind its end; every other page, those below
  -- 256MB among them, is as it was in every address space, and so is what was in use and no table.
  pub load_flat-Apart :
      (fuel : ℕ) (level : ℕ → ℕ) (m : Machine)
      → IsTree level m
      → level root ≡ 4
      → IsKept load_addr (flat size) level m
      → IsReached flat_binary_vaddr level m
      → load_addr + size ≤ flat_binary_vaddr
      → size + 4096 ≤ fuel * 4096
      → (ok : Bool) × (m' : Machine) × (load_flat fuel (root * 4096) load_addr size 0 m
          ≡ some (ok, m'))
        × Loaded load_addr
            (flat size)
            root
            level
            m
            (flat_binary_vaddr + 0)
            (end_vaddr (flat size))
            ok
            m'
        × ((q w : ℕ) → level q ≡ 4 → w < flat_binary_vaddr → walk 4 q w m'.mem ≡ walk 4 q w m.mem)
  load_flat-Apart fuel level m tree four file reached below enough =
      let (ok, m', e, loaded) =
        load_flat-Loaded fuel 0 level m tree four file refl (omega arith) (omega (arith, enough)) in
      (
        ok,
        m',
        e,
        loaded,
        λ q w four' low.
            loaded.others q w four'
              (λ x lo hi same. absurd (omega (arith, lo, hi, low, below, same))),
      )
