-- ===== src/Vmm/Aside.antt =====
-- A write outside the page tables leaves them and every walk.
use os_eojin.Base.{
  ℕ, zero, suc, ◌+◌, ◌*◌, ◌/◌, ◌<◌, ◌≡◌, refl, true, arith, ap, ◌∙◌, sym, Bool-cases, inl, inr,
  subst,
}
use os_eojin.Machine.{Machine}
use os_eojin.Machine.Bytes.{load_same}
use os_eojin.Pmm.Alloc.{used}
use os_eojin.Vmm.{index, present}
use os_eojin.Vmm.Word.{word, target}
use os_eojin.Vmm.Tree.{walk, IsTree, index-lt, rest_of_walk}

module _ (level : ℕ → ℕ) (m : Machine) (mem : ℕ → ℕ) (tree : IsTree level m)
    (same : (a : ℕ) → 0 < level (a / 4096) → mem a ≡ m.mem a) where
  word-aside : (p j : ℕ) → 0 < level p → j < 512 → word p j mem ≡ word p j m.mem
  word-aside p j pos less =
      load_same 8 (p * 4096 + 8 * j) mem m.mem
        λ b lo hi. let at : b / 4096 ≡ p = omega arith in same b (omega (arith, ap level at, pos))

  pub walk-aside : (n b v : ℕ) → level b ≡ n → walk n b v mem ≡ walk n b v m.mem
  unfolding walk
  walk-aside zero b v here = refl
  walk-aside (suc n) b v here =
      let value = word-aside b (index n v) (omega (arith, here)) (index-lt n v) in
      elim (Bool-cases (present (word b (index n v) m.mem))) [
        | inr gone ↦ rw (value, gone) refl
        | inl there ↦
            rw (value, there)
              (rest_of_walk level m mem n b v tree here there (λ d h. walk-aside n d v h))
      ]

  pub IsTree-aside : IsTree level (record m { mem = mem })
  unfolding used
  IsTree-aside = record {
    reserved = tree.reserved;
    few = tree.few;
    taken = tree.taken;
    bound = tree.bound;
    names = λ p j two less there.
        let e = word-aside p j (omega (arith, two)) less in
        ap (λ w. level (target w) + 1) e
        ∙ tree.names p j two less (subst (λ w. present w ≡ true) e there);
    single = λ p j q i two two' less less' there there' goes.
        let e = word-aside p j (omega (arith, two)) less in
        let e' = word-aside q i (omega (arith, two')) less' in
        tree.single p j q i two two' less less' (subst (λ w. present w ≡ true) e there)
          (subst (λ w. present w ≡ true) e' there') (sym (ap target e) ∙ goes ∙ ap target e');
  }
