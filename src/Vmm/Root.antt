-- ===== src/Vmm/Root.antt =====
-- A new PML4 in src/kernel/vmm.c: empty but for its first entry, which may be that of another PML4.
use os_eojin.Base.{
  ℕ, zero, suc, ◌≤◌, ◌<◌, ◌≡◌, ◌≢◌, refl, true, ◌==◌, if◌then◌else◌, arith, ap, ap₂, ◌∙◌, sym,
  Bool-cases, inl, inr, subst, ==_ne, ==_iff,
}
use os_eojin.Machine.{Machine}
use os_eojin.Pmm.Alloc.{used, IsReserved}
use os_eojin.Vmm.{index, present}
use os_eojin.Vmm.Word.{word, target}
use os_eojin.Vmm.Tree.{walk, IsTree, Extends, index-lt, rest_of_walk}

abbrev pub with_root : ℕ → (ℕ → ℕ) → ℕ → ℕ
with_root c level p = if c == p then 4 else level p

module _ (level : ℕ → ℕ) (m m' : Machine) (c e : ℕ) (tree : IsTree level m) (plain : level c ≡ 0)
    (first : word c 0 m'.mem ≡ e) (empty : (j : ℕ) → 0 < j → j < 512 → word c j m'.mem ≡ 0)
    (same : (q j : ℕ) → c ≢ q → j < 512 → word q j m'.mem ≡ word q j m.mem)
    (shared : present e ≡ true → (k : ℕ) × (level k ≡ 4) × (e ≡ word k 0 m.mem))
    (size : m'.total_blocks ≡ m.total_blocks) (reserved : IsReserved m')
    (marks : (j : ℕ) → used m' j ≡ (if c == j then true else used m j)) where
  abbrev level' : ℕ → ℕ
  level' = with_root c level

  ne_c : (p : ℕ) → 0 < level p → c ≢ p
  ne_c p pos e' = absurd (omega (arith, pos, plain, ap level e'))

  pub Extends-root : Extends level level'
  Extends-root p pos = rw (==_ne c p (ne_c p pos)) refl

  level-other : (p : ℕ) → c ≢ p → level' p ≡ level p
  level-other p ne = rw (==_ne c p ne) refl

  -- An entry that is present stands in an old table, or is the one that is shared.
  origin :
      (p j : ℕ)
      → 2 ≤ level' p
      → j < 512
      → present (word p j m'.mem) ≡ true
      → (q : ℕ) × (word p j m'.mem ≡ word q j m.mem)
        × (level q ≡ level' p)
        × (present (word q j m.mem) ≡ true)
        × (level' p < 4 → p ≡ q)
  origin p j two less there = elim (Bool-cases (c == p)) [
    | inr ne ↦
        let e' = same p j (λ h. absurd (ground (arith, ne))) less in
        (
          p,
          e',
          sym (level-other p (λ h. absurd (ground (arith, ne)))),
          subst (λ w. present w ≡ true) e' there,
          λ h. refl,
        )
    | inl new ↦
        let at_c : c ≡ p = (==_iff c p).0 new in
        let there' : present (word c j m'.mem) ≡ true =
          subst (λ q. present (word q j m'.mem) ≡ true) (sym at_c) there in
        elim (Bool-cases (j == 0)) [
          | inr far ↦
              let none' = empty j (ground arith) less in absurd (ground (arith, there', none'))
          | inl start ↦
              let zero' : j ≡ 0 = (==_iff j 0).0 start in
              let on : present e ≡ true =
                subst (λ w. present w ≡ true) first
                  (subst (λ i. present (word c i m'.mem) ≡ true) zero' there') in
              let (k, four, value) = shared on in
              let four' : level' p ≡ 4 = rw new refl in
              (
                k,
                ap₂ (λ q i. word q i m'.mem) (sym at_c) zero'
                    ∙ first
                    ∙ value
                    ∙ ap (λ i. word k i m.mem) (sym zero'),
                four ∙ sym four',
                subst (λ i. present (word k i m.mem) ≡ true) (sym zero')
                    (subst (λ w. present w ≡ true) value on),
                λ h. absurd (omega (arith, h, four')),
              )
        ]
  ]

  pub IsTree-root : IsTree level' m'
  IsTree-root = record {
    reserved = reserved;
    few = omega (arith, size, tree.few);
    taken = λ p some'. elim (Bool-cases (c == p)) [
      | inl e' ↦ marks p ∙ rw e' refl
      | inr ne ↦ marks p ∙ rw ne (tree.taken p (subst (λ n. 0 < n) (rw ne refl) some'))
    ];
    bound = λ p. ground (arith, tree.bound p);
    names = λ p j two less there.
        let (q, value, high, there', one) = origin p j two less there in
        let below = tree.names q j (omega (arith, high, two)) less there' in
        let up = Extends-root (target (word q j m.mem)) (omega (arith, below, high, two)) in
        omega (arith, ap (λ w. level' (target w)) value, up, below, high);
    single = λ p j q i two two' less less' there there' goes.
        let (x, value, high, was, one) = origin p j two less there in
        let (y, value', high', was', one') = origin q i two' less' there' in
        let (turn, up) =
          tree.single x j y i (omega (arith, high, two)) (omega (arith, high', two')) less less' was
            was' (sym (ap target value) ∙ goes ∙ ap target value') in
        (
          turn,
          λ h.
              one h
              ∙ up (omega (arith, high, h))
              ∙ sym (
                  one' (
                    omega (
                      arith,
                      h,
                      high,
                      high',
                      tree.names x j (omega (arith, high, two)) less was,
                      tree.names y i (omega (arith, high', two')) less' was',
                      ap level (sym (ap target value) ∙ goes ∙ ap target value'),
                    ))),
        );
  }

  pub walks-root : (n b v : ℕ) → level b ≡ n → walk n b v m'.mem ≡ walk n b v m.mem
  unfolding walk
  walks-root zero b v here = refl
  walks-root (suc n) b v here =
      let value = same b (index n v) (ne_c b (omega (arith, here))) (index-lt n v) in
      elim (Bool-cases (present (word b (index n v) m.mem))) [
        | inr gone ↦ rw (value, gone) refl
        | inl there ↦
            rw (value, there)
              (rest_of_walk level m m'.mem n b v tree here there (λ d h. walks-root n d v h))
      ]
