-- ===== src/Vmm/Map.antt =====
-- What `vmm_map_page` of src/kernel/vmm.c promises about the walk of the processor.
use os_eojin.Base.{
  ℕ, ◌+◌, ◌*◌, ◌/◌, ◌%◌, ◌^◌, ◌≤◌, ◌<◌, ◌≡◌, refl, Bool, true, false, Option, some, ◌==◌, arith, ap,
  ◌∙◌, sym, Bool-cases, inl, inr, subst, ==_iff,
}
use os_eojin.Machine.{Machine}
use os_eojin.Pmm.Alloc.{used}
use os_eojin.Vmm.{index, present, descend, at_table, set_page, map_page, vmm_map_page}
use os_eojin.Vmm.Word.{word, target}
use os_eojin.Vmm.Tree.{walk, leaf, IsTree, Extends, StayPlain, KeepsLinks, index-lt}
use os_eojin.Vmm.Descend.{IsFull, Outcome, descend-Down}
use os_eojin.Vmm.Down.{Down}
use os_eojin.Vmm.SetPage.{SamePage, after-IsTree, mapped, others, outside, above}

-- What holds after `vmm_map_page`, whether it came to its end (`done`) or not.
pub record Mapped (level : ℕ → ℕ) (root v paddr : ℕ) (m : Machine) (done : Bool) (m' : Machine)
    : Type 0 where
  pub level' : ℕ → ℕ
  pub tree : IsTree level' m'
  pub extends : Extends level level'
  pub plain : StayPlain level level' m
  pub links : KeepsLinks level m m'
  -- no byte outside the tables changes
  pub outside : (a : ℕ) → level' (a / 4096) ≡ 0 → m'.mem a ≡ m.mem a
  -- no other page comes, goes or moves, in this address space or in another
  pub others : (q w : ℕ) → level q ≡ 4 → ¬ SamePage v w → walk 4 q w m'.mem ≡ walk 4 q w m.mem
  pub busy : (j : ℕ) → used m j ≡ true → used m' j ≡ true
  pub size : m'.total_blocks ≡ m.total_blocks
  -- the page is mapped
  pub mapped : done ≡ true → walk 4 root v m'.mem ≡ some (paddr / 4096 % 2 ^ 40)
  -- or there was no block left for a table, and the walk is as it was
  pub failed :
      done ≡ false
      → ((j : ℕ) → j < m'.total_blocks → used m' j ≡ true)
        × (walk 4 root v m'.mem ≡ walk 4 root v m.mem)

abbrev MapsTo : (ℕ → ℕ) → ℕ → ℕ → ℕ → Machine → Bool × Machine → Type 0
MapsTo level root v paddr m r = Mapped level root v paddr m r.0 r.1

no_table_before : (level level' : ℕ → ℕ) (p : ℕ) → Extends level level' → level' p ≡ 0 → level p ≡ 0
no_table_before level level' p extends plain = elim (Bool-cases (level p == 0)) [
  | inl zero' ↦ (==_iff (level p) 0).0 zero'
  | inr some' ↦
      let pos : 0 < level p = ground arith in absurd (omega (arith, extends p pos, pos, plain))
]

-- The entries on the way to a last table.
leaf-way :
    (root c d t v : ℕ) (mem : ℕ → ℕ)
    → present (word root (index 3 v) mem) ≡ true
    → target (word root (index 3 v) mem) ≡ c
    → present (word c (index 2 v) mem) ≡ true
    → target (word c (index 2 v) mem) ≡ d
    → present (word d (index 1 v) mem) ≡ true
    → target (word d (index 1 v) mem) ≡ t
    → leaf 3 root v mem ≡ some t
unfolding leaf
leaf-way root c d t v mem a b a' b' a'' b'' = rw (a, b) (rw (a', b') (rw (a'', b'') refl))

module _ (v paddr flags root : ℕ) (small : flags < 4096) (odd : present flags ≡ true) where
  -- The step at a last table that was found.
  set_page-Mapped :
      (level : ℕ → ℕ) (m : Machine) (t : ℕ)
      → IsTree level m
      → level t ≡ 1
      → level root ≡ 4
      → leaf 3 root v m.mem ≡ some t
      → MapsTo level root v paddr m (set_page v paddr flags (t * 4096) m)
  unfolding used
  set_page-Mapped level m t tree last four way = record {
    level' = level;
    tree = after-IsTree level m t v paddr flags root tree last four way small odd;
    extends = λ p pos. refl;
    plain = λ p was none'. none';
    links = λ p j two less was.
        above level m t v paddr flags root tree last four way small odd p j two less;
    outside = outside level m t v paddr flags root tree last four way small odd;
    others = others level m t v paddr flags root tree last four way small odd;
    busy = λ j was. was;
    size = refl;
    mapped = λ e. mapped level m t v paddr flags root tree last four way small odd;
    failed = λ e. cc;
  }

  -- A step down before the others.
  Mapped-Down :
      (level level' : ℕ → ℕ) (t i c : ℕ) (m m' : Machine) (r : Bool × Machine)
      → level root ≡ 4
      → Down level level' t i c m m'
      → MapsTo level' root v paddr m' r
      → MapsTo level root v paddr m r
  Mapped-Down level level' t i c m m' r four down rest = record {
    level' = rest.level';
    tree = rest.tree;
    extends = λ p pos. rest.extends p (omega (arith, pos, down.extends p pos)) ∙ down.extends p pos;
    links = λ p j two less was.
        let same = down.links p j two less was in
        rest.links p j (omega (arith, down.extends p (omega (arith, two)), two)) less
          (subst (λ w. present w ≡ true) (sym same) was)
        ∙ same;
    plain = λ p was none'. rest.plain p (down.busy p was) (down.plain p was none');
    outside = λ a plain.
        let plain' = no_table_before level' rest.level' (a / 4096) rest.extends plain in
        rest.outside a plain ∙ down.outside a plain';
    others = λ q w four' apart.
        rest.others q w (down.extends q (omega (arith, four')) ∙ four') apart
        ∙ down.walks 4 q w four';
    busy = λ j was. rest.busy j (down.busy j was);
    size = rest.size ∙ down.size;
    mapped = rest.mapped;
    failed = λ e. ((rest.failed e).0, (rest.failed e).1 ∙ down.walks 4 root v four);
  }

  -- No block was left for a table.
  Mapped-full :
      (level : ℕ → ℕ) (m m' : Machine)
      → IsFull m m'
      → IsTree level m'
      → MapsTo level root v paddr m (false, m')
  Mapped-full level m m' full tree = record {
    level' = level;
    tree = tree;
    extends = λ p pos. refl;
    plain = λ p was none'. none';
    links = λ p j two less was. ap (word p j) full.memory;
    outside = λ a plain. ap (λ f. f a) full.memory;
    others = λ q w four apart. ap (walk 4 q w) full.memory;
    busy = full.busy;
    size = full.size;
    mapped = λ e. cc;
    failed = λ e. (full.full, ap (walk 4 root v) full.memory);
  }

  -- One step down, and what follows it.
  at_table-Mapped :
      (next : ℕ → Machine → Bool × Machine) (level : ℕ → ℕ) (m : Machine) (t i : ℕ)
      (r : Option ℕ × Machine)
      → level root ≡ 4
      → Outcome level m t i r
      → ((level' : ℕ → ℕ) (c : ℕ)
          → Down level level' t i c m r.1
          → MapsTo level' root v paddr r.1 (next (c * 4096) r.1))
      → MapsTo level root v paddr m (at_table next r)
  at_table-Mapped next level m t i (o, m') four (inl (level', c, found, down)) rest =
      subst (λ o. MapsTo level root v paddr m (at_table next (o, m'))) (sym found)
        (Mapped-Down level level' t i c m m' (next (c * 4096) m') four down (rest level' c down))
  at_table-Mapped next level m t i (o, m') four (inr (lost, full, tree)) rest =
      subst (λ o. MapsTo level root v paddr m (at_table next (o, m'))) (sym lost)
        (Mapped-full level m m' full tree)

table-below :
    (level : ℕ → ℕ) (m : Machine) (p i c : ℕ)
    → IsTree level m
    → 2 ≤ level p
    → i < 512
    → present (word p i m.mem) ≡ true
    → target (word p i m.mem) ≡ c
    → level c + 1 ≡ level p
table-below level m p i c tree two less there goes =
    ap (λ b. level b + 1) (sym goes) ∙ tree.names p i two less there

-- On a tree of tables, with flags below 4096 that mark the page as present: `vmm_map_page` leaves a tree
-- of tables in which every page but that of `vaddr` is as it was, in every address space, and no byte
-- outside the tables changes. Either the page of `vaddr` is mapped to that of `paddr`, or every block is
-- in use and the page is as it was too.
pub vmm_map_page-Mapped :
    (v paddr flags root : ℕ) (level : ℕ → ℕ) (m : Machine)
    → flags < 4096
    → present flags ≡ true
    → IsTree level m
    → level root ≡ 4
    → Mapped level root v paddr m
        (map_page (root * 4096) v paddr flags m).0
        (vmm_map_page (root * 4096) v paddr flags m)
unfolding map_page vmm_map_page
vmm_map_page-Mapped v paddr flags root level m small odd tree four =
    at_table-Mapped v paddr flags root small odd
      (λ pdpt m1.
        at_table (λ pd m2. at_table (set_page v paddr flags) (descend pd (index 1 v) m2))
          (descend pdpt (index 2 v) m1))
      level m root (index 3 v) (descend (root * 4096) (index 3 v) m) four
      (descend-Down level m root (index 3 v) tree (omega (arith, four)) (index-lt 3 v))
      λ level1 c d1.
        let m1 = (descend (root * 4096) (index 3 v) m).1 in
        let root1 : level1 root ≡ 4 = d1.extends root (omega (arith, four)) ∙ four in
        let three =
          table-below level1 m1 root (index 3 v) c d1.tree (omega (arith, root1)) (index-lt 3 v)
            d1.linked d1.goes in
        at_table-Mapped v paddr flags root small odd
          (λ pd m2. at_table (set_page v paddr flags) (descend pd (index 1 v) m2)) level1 m1 c
          (index 2 v) (descend (c * 4096) (index 2 v) m1) root1
          (descend-Down level1 m1 c (index 2 v) d1.tree (omega (arith, three, root1))
            (index-lt 2 v))
          λ level2 d d2.
            let m2 = (descend (c * 4096) (index 2 v) m1).1 in
            let root2 : level2 root ≡ 4 = d2.extends root (omega (arith, root1)) ∙ root1 in
            let c2 : level2 c ≡ 3 =
              d2.extends c (omega (arith, three, root1)) ∙ omega (arith, three, root1) in
            let two =
              table-below level2 m2 c (index 2 v) d d2.tree (omega (arith, c2)) (index-lt 2 v)
                d2.linked d2.goes in
            at_table-Mapped v paddr flags root small odd (set_page v paddr flags) level2 m2 d
              (index 1 v) (descend (d * 4096) (index 1 v) m2) root2
              (descend-Down level2 m2 d (index 1 v) d2.tree (omega (arith, two, c2)) (index-lt 1 v))
              λ level3 t d3.
                let m3 = (descend (d * 4096) (index 1 v) m2).1 in
                let root3 : level3 root ≡ 4 = d3.extends root (omega (arith, root2)) ∙ root2 in
                let d3' : level3 d ≡ 2 =
                  d3.extends d (omega (arith, two, c2)) ∙ omega (arith, two, c2) in
                let one =
                  table-below level3 m3 d (index 1 v) t d3.tree (omega (arith, d3')) (index-lt 1 v)
                    d3.linked d3.goes in
                let e1 : word root (index 3 v) m3.mem ≡ word root (index 3 v) m1.mem =
                  d3.keeps root (index 3 v) (omega (arith, root2))
                    (λ e. absurd (omega (arith, root2, two, c2, ap level2 e))) (index-lt 3 v)
                  ∙ d2.keeps root (index 3 v) (omega (arith, root1))
                      (λ e. absurd (omega (arith, root1, three, ap level1 e))) (index-lt 3 v) in
                let e2 : word c (index 2 v) m3.mem ≡ word c (index 2 v) m2.mem =
                  d3.keeps c (index 2 v) (omega (arith, c2))
                    (λ e. absurd (omega (arith, two, c2, ap level2 e))) (index-lt 2 v) in
                set_page-Mapped v paddr flags root small odd level3 m3 t d3.tree
                  (omega (arith, one, d3')) root3
                  (leaf-way root c d t v m3.mem (ap present e1 ∙ d1.linked) (ap target e1 ∙ d1.goes)
                    (ap present e2 ∙ d2.linked) (ap target e2 ∙ d2.goes) d3.linked d3.goes)
