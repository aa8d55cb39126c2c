-- ===== src/Vmm/SetPage.antt =====
-- The entry that the last step of `vmm_map_page` in src/kernel/vmm.c writes.
use os_eojin.Base.{
  ℕ, zero, suc, ◌+◌, ◌*◌, ◌/◌, ◌%◌, ◌^◌, ◌≤◌, ◌<◌, ◌≡◌, refl, true, some, ◌==◌, ◌&&◌, bit_or,
  if◌then◌else◌, arith, ap, ◌∙◌, sym, Bool-cases, Option-cases, inl, inr, subst, ==_ne, ==_refl,
}
use os_eojin.Machine.{Machine}
use os_eojin.Machine.Bytes.{store_outside}
use os_eojin.Pmm.Alloc.{used}
use os_eojin.Vmm.{index, present, page_of, set_page}
use os_eojin.Vmm.Word.{word, target, bit_or-add, word-write64}
use os_eojin.Vmm.Tree.{walk, leaf, at_leaf, walk-leaf, leaf-single, SameTurns, IsTree, index-lt}
use os_eojin.Vmm.Down.{aside}

-- Ways to the last table go by tables above the last level alone.
leaf-same :
    (level : ℕ → ℕ) (m : Machine) (mem : ℕ → ℕ) (n b w : ℕ)
    → IsTree level m
    → ((p j : ℕ) → 2 ≤ level p → j < 512 → word p j mem ≡ word p j m.mem)
    → level b ≡ suc n
    → leaf n b w mem ≡ leaf n b w m.mem
unfolding leaf
leaf-same level m mem zero b w tree same here = refl
leaf-same level m mem (suc n) b w tree same here =
    let e = same b (index (suc n) w) (omega (arith, here)) (index-lt (suc n) w) in
    elim (Bool-cases (present (word b (index (suc n) w) m.mem))) [
      | inr gone ↦ rw (e, gone) refl
      | inl there ↦
          let down =
            tree.names b (index (suc n) w) (omega (arith, here)) (index-lt (suc n) w) there in
          rw (e, there)
            (leaf-same level m mem n (target (word b (index (suc n) w) m.mem)) w tree same
              (omega (arith, down, here)))
    ]

-- Two addresses of 48 bits in one page.
abbrev pub SamePage : ℕ → ℕ → Type 0
SamePage v w = v / 4096 % 2 ^ 36 ≡ w / 4096 % 2 ^ 36

turns-SamePage : (v w : ℕ) → SameTurns 3 v w → index 0 v ≡ index 0 w → SamePage v w
turns-SamePage v w turns last = omega (arith, turns.0, turns.1.0, turns.1.1.0, last)

-- The entry that `set_page` writes into the table in block `t`.
module _ (level : ℕ → ℕ) (m : Machine) (t v paddr flags root : ℕ) (tree : IsTree level m)
    (last : level t ≡ 1) (four : level root ≡ 4) (way : leaf 3 root v m.mem ≡ some t)
    (small : flags < 4096) (odd : present flags ≡ true) where
  abbrev pub after : Machine
  after = (set_page v paddr flags (t * 4096) m).1

  value : bit_or (page_of paddr) flags ≡ page_of paddr + flags
  value = bit_or-add 12 (paddr / 4096 % 2 ^ 40) flags small

  words :
      (q k : ℕ)
      → k < 512
      → word q k after.mem
        ≡ (if (t == q) && (index 0 v == k) then page_of paddr + flags else word q k m.mem)
  words q k less =
      word-write64 t (index 0 v) q k (bit_or (page_of paddr) flags) m.mem (index-lt 0 v) less
        (omega (arith, value, small))
      ∙ rw value refl

  pub above : (p j : ℕ) → 2 ≤ level p → j < 512 → word p j after.mem ≡ word p j m.mem
  above p j two less =
      words p j less ∙ rw (==_ne t p (λ e. absurd (omega (arith, last, two, ap level e)))) refl

  pub after-IsTree : IsTree level after
  unfolding used
  after-IsTree = record {
    reserved = tree.reserved;
    few = tree.few;
    taken = tree.taken;
    bound = tree.bound;
    names = λ p j two less there.
        let e = above p j two less in
        ap (λ w. level (target w) + 1) e
        ∙ tree.names p j two less (subst (λ w. present w ≡ true) e there);
    single = λ p j q i two two' less less' there there' same.
        let e = above p j two less in
        let e' = above q i two' less' in
        tree.single p j q i two two' less less' (subst (λ w. present w ≡ true) e there)
          (subst (λ w. present w ≡ true) e' there') (sym (ap target e) ∙ same ∙ ap target e');
  }

  pub mapped : walk 4 root v after.mem ≡ some (paddr / 4096 % 2 ^ 40)
  mapped =
      let there : word t (index 0 v) after.mem ≡ page_of paddr + flags =
        words t (index 0 v) (index-lt 0 v) ∙ rw (==_refl t, ==_refl (index 0 v)) refl in
      let on : present (page_of paddr + flags) ≡ true = ground (arith, odd) in
      let goes : target (page_of paddr + flags) ≡ paddr / 4096 % 2 ^ 40 = omega (arith, small) in
      walk-leaf 3 root v after.mem
      ∙ ap (at_leaf v after.mem) (leaf-same level m after.mem 3 root v tree above four ∙ way)
      ∙ rw (there, on, goes) refl

  other_leaf :
      (q w t' : ℕ)
      → level q ≡ 4
      → ¬ SamePage v w
      → leaf 3 q w m.mem ≡ some t'
      → word t' (index 0 w) after.mem ≡ word t' (index 0 w) m.mem
  other_leaf q w t' four' apart way' =
      words t' (index 0 w) (index-lt 0 w)
      ∙ elim (Bool-cases ((t == t') && (index 0 v == index 0 w))) [
        | inr far ↦ rw far refl
        | inl near ↦
            let same : t ≡ t' = ground arith in
            let (up, turns) =
              leaf-single level m 3 root q v w t tree four four' way
                (way' ∙ ap (λ n. some n) (sym same)) in
            absurd (apart (turns-SamePage v w turns (ground arith)))
      ]

  pub others : (q w : ℕ) → level q ≡ 4 → ¬ SamePage v w → walk 4 q w after.mem ≡ walk 4 q w m.mem
  others q w four' apart =
      walk-leaf 3 q w after.mem
      ∙ ap (at_leaf w after.mem) (leaf-same level m after.mem 3 q w tree above four')
      ∙ elim (Option-cases (leaf 3 q w m.mem)) [
        | inl lost ↦ rw lost refl
        | inr (t', way') ↦ rw (way', other_leaf q w t' four' apart way') refl
      ]
      ∙ sym (walk-leaf 3 q w m.mem)

  pub outside : (a : ℕ) → level (a / 4096) ≡ 0 → after.mem a ≡ m.mem a
  outside a plain =
      store_outside 8 (t * 4096 + 8 * index 0 v) (bit_or (page_of paddr) flags) a m.mem (
        aside t (index 0 v) a (index-lt 0 v) (λ e. absurd (omega (arith, plain, last, ap level e))))
