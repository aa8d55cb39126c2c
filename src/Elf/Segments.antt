-- ===== src/Elf/Segments.antt =====
-- The whole loop of `elf_load_file` in src/kernel/elf.c over the pages of a segment.
use os_eojin.Base.{
  ℕ, zero, suc, ◌+◌, ◌*◌, ◌/◌, ◌%◌, ◌^◌, ◌≤◌, ◌<◌, ◌≡◌, ◌≢◌, refl, Bool, true, false, Option, some,
  inl, inr, ◌==◌, ltb, arith, Bool-cases, ◌∙◌, ap, subst, ==_ne, ==_iff, codes,
}
use os_eojin.Machine.{Machine, kprint, u64}
use os_eojin.Pmm.{pmm_alloc_block}
use os_eojin.Pmm.Alloc.{used}
use os_eojin.Vmm.{page_size}
use os_eojin.Vmm.Tree.{IsTree}
use os_eojin.Vmm.SetPage.{SamePage}
use os_eojin.Elf.{Segment, end_vaddr, load_pages}
use os_eojin.Elf.Page.{IsPlaced, byte_at}
use os_eojin.Elf.Load.{
  Holds, IsKept, Loaded, byte_at_same, nothing-Loaded, full-Loaded, page-Loaded, loaded_page,
}

-- The pages of two runs of the loop, one after the other.
module _ (file_buffer root first middle last : ℕ) (s : Segment) (level : ℕ → ℕ) (m m1 m' : Machine)
    (ok : Bool) (file : IsKept file_buffer s level m) (four : level root ≡ 4) (up : first ≤ middle)
    (down : middle ≤ last) (low : last ≤ 2 ^ 47)
    (now : Loaded file_buffer s root level m first middle true m1)
    (later : Loaded file_buffer s root now.level' m1 middle last ok m') where
  both-apart : (x y : ℕ) → x < middle → middle ≤ y → y < last → middle % 4096 ≡ 0 → ¬ SamePage y x
  both-apart x y before after end aligned e = absurd (omega (arith, e, aligned, before, after, end))

  bytes-kept : (x : ℕ) → byte_at file_buffer s m1.mem x ≡ byte_at file_buffer s m.mem x
  bytes-kept x = byte_at_same file_buffer s level m file x m1.mem now.kept

  -- A byte that the first run loaded is still there.
  Holds-kept :
      (x b : ℕ)
      → x < middle
      → middle % 4096 ≡ 0
      → Holds now.level' root x b m1
      → Holds later.level' root x b m'
  Holds-kept x b before aligned (p, way, none', was, value) =
      let root1 : now.level' root ≡ 4 = now.extends root (omega (arith, four)) ∙ four in
      let at : (p * 4096 + x % 4096) / 4096 ≡ p = omega arith in
      (
        p,
        later.others root x root1 (λ y lo hi. both-apart x y before lo hi aligned) ∙ way,
        later.plain p was none',
        later.busy p was,
        later.kept (p * 4096 + x % 4096) (ap (used m1) at ∙ was) (ap now.level' at ∙ none') ∙ value,
      )

  pub both-Loaded : middle % 4096 ≡ 0 → Loaded file_buffer s root level m first last ok m'
  both-Loaded aligned = record {
    level' = later.level';
    tree = later.tree;
    extends = λ p pos. later.extends p (omega (arith, now.extends p pos, pos)) ∙ now.extends p pos;
    plain = λ p was none'. later.plain p (now.busy p was) (now.plain p was none');
    busy = λ j was. later.busy j (now.busy j was);
    size = later.size ∙ now.size;
    kept = λ a was none'.
        later.kept a (now.busy (a / 4096) was) (now.plain (a / 4096) was none')
        ∙ now.kept a was none';
    others = λ q w four' apart.
        later.others q w (now.extends q (omega (arith, four')) ∙ four')
          (λ x lo hi. apart x (omega arith) hi)
        ∙ now.others q w four' (λ x lo hi. apart x lo (omega arith));
    bytes = elim now.bytes [
      | inr full ↦ inr (λ j less. later.busy j (full j (omega (arith, less, later.size))))
      | inl old ↦ elim later.bytes [
        | inr full ↦ inr full
        | inl new ↦ inl (λ x lo hi. elim (Bool-cases (ltb x middle)) [
          | inl before ↦
              Holds-kept x (byte_at file_buffer s m.mem x) (ground arith) aligned
                (old x lo (ground arith))
          | inr after ↦
              subst (λ b. Holds later.level' root x b m') (bytes-kept x) (new x (ground arith) hi)
        ])
      ]
    ];
    short = later.short;
  }

pub IsKept-Loaded :
    (file_buffer root first last : ℕ) (s : Segment) (level : ℕ → ℕ) (m m' : Machine) (ok : Bool)
    → IsKept file_buffer s level m
    → (now : Loaded file_buffer s root level m first last ok m')
    → IsKept file_buffer s now.level' m'
IsKept-Loaded file_buffer root first last s level m m' ok file now a lo hi =
    let (was, none') = file a lo hi in (now.busy (a / 4096) was, now.plain (a / 4096) was none')

-- The loop ends, and how.
abbrev Ends : ℕ → Segment → ℕ → (ℕ → ℕ) → Machine → ℕ → Option (Bool × Machine) → Type 0
Ends file_buffer s root level m vaddr r =
    (ok : Bool) × (m' : Machine) × (r ≡ some (ok, m'))
    × Loaded file_buffer s root level m vaddr (end_vaddr s) ok m'

module _ (file_buffer root : ℕ) (s : Segment) (placed : IsPlaced file_buffer s) where
  end-le : end_vaddr s ≤ 2 ^ 47
  end-le = omega (arith, placed.memory)

  load_pages-done :
      (fuel vaddr : ℕ) (m : Machine)
      → end_vaddr s ≤ vaddr
      → load_pages (suc fuel) (root * 4096) file_buffer s vaddr m ≡ some (true, m)
  unfolding load_pages
  load_pages-done fuel vaddr m done =
      let stop : ltb vaddr (end_vaddr s) ≡ false = ground arith in rw stop refl

  load_pages-full :
      (fuel vaddr : ℕ) (m : Machine)
      → vaddr < end_vaddr s
      → (pmm_alloc_block m).0 ≡ 0
      → load_pages (suc fuel) (root * 4096) file_buffer s vaddr m
        ≡ some (false, kprint (codes "ELF Load Error: OOM\n") (pmm_alloc_block m).1)
  unfolding load_pages
  load_pages-full fuel vaddr m more e =
      let go : ltb vaddr (end_vaddr s) ≡ true = ground arith in rw (go, e) refl

  load_pages-more :
      (fuel vaddr : ℕ) (m : Machine)
      → vaddr < end_vaddr s
      → vaddr + 4096 < 2 ^ 64
      → (pmm_alloc_block m).0 ≢ 0
      → load_pages (suc fuel) (root * 4096) file_buffer s vaddr m
        ≡ load_pages fuel
            (root * 4096)
            file_buffer
            s
            (vaddr + 4096)
            (loaded_page root file_buffer s vaddr m)
  unfolding load_pages
  load_pages-more fuel vaddr m more small got =
      let go : ltb vaddr (end_vaddr s) ≡ true = ground arith in
      let plain : u64 (vaddr + page_size) ≡ vaddr + 4096 = omega arith in
      rw (go, ==_ne (pmm_alloc_block m).0 0 got, plain) refl

  pub load_pages-Ends :
      (fuel vaddr : ℕ) (level : ℕ → ℕ) (m : Machine)
      → IsTree level m
      → level root ≡ 4
      → IsKept file_buffer s level m
      → vaddr % 4096 ≡ 0
      → vaddr ≤ end_vaddr s
      → end_vaddr s < vaddr + fuel * 4096
      → Ends file_buffer s root level m vaddr (load_pages fuel (root * 4096) file_buffer s vaddr m)
  load_pages-Ends zero vaddr level m tree four file aligned le enough = absurd (omega arith)
  load_pages-Ends (suc fuel) vaddr level m tree four file aligned le enough =
      elim (Bool-cases (ltb vaddr (end_vaddr s))) [
        | inr stop ↦ (
          true,
          m,
          load_pages-done fuel vaddr m (ground (arith, stop)),
          nothing-Loaded file_buffer s root level m vaddr (end_vaddr s) tree (ground (arith, stop)),
        )
        | inl go ↦
            let more : vaddr < end_vaddr s = ground (arith, go) in
            let next : vaddr + 4096 ≤ end_vaddr s = omega arith in
            elim (Bool-cases ((pmm_alloc_block m).0 == 0)) [
              | inl zero' ↦
                  let e = (==_iff (pmm_alloc_block m).0 0).0 zero' in
                  (
                    false,
                    kprint (codes "ELF Load Error: OOM\n") (pmm_alloc_block m).1,
                    load_pages-full fuel vaddr m more e,
                    full-Loaded file_buffer s root level m vaddr (end_vaddr s)
                        (kprint (codes "ELF Load Error: OOM\n") (pmm_alloc_block m).1).console tree
                        e,
                  )
              | inr got' ↦
                  let got : (pmm_alloc_block m).0 ≢ 0 = λ e. absurd (ground (arith, got')) in
                  let m1 = loaded_page root file_buffer s vaddr m in
                  let now =
                    page-Loaded file_buffer root vaddr s level m placed tree four file aligned
                      (omega (arith, next, end-le)) got in
                  let (ok, m', e, later) =
                    load_pages-Ends fuel (vaddr + 4096) now.level' m1 now.tree
                      (now.extends root (omega (arith, four)) ∙ four)
                      (IsKept-Loaded file_buffer root vaddr (vaddr + 4096) s level m m1 true file
                        now)
                      (omega (arith, aligned)) next (omega (arith, enough)) in
                  (
                    ok,
                    m',
                    load_pages-more fuel vaddr m more (omega (arith, next, end-le)) got ∙ e,
                    both-Loaded file_buffer root vaddr (vaddr + 4096) (end_vaddr s) s level m m1 m'
                        ok file four (omega arith) next end-le now later (omega (arith, aligned)),
                  )
            ]
      ]
