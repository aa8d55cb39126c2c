-- ===== src/Vmm/Down.antt =====
-- A new table that src/kernel/vmm.c links into the tree of tables.
use os_eojin.Base.{
  ℕ, zero, suc, ◌+◌, ◌-◌, ◌*◌, ◌/◌, ◌^◌, ◌≤◌, ◌<◌, ◌≡◌, ◌≢◌, refl, true, false, none, ◌==◌, ◌&&◌,
  bit_or, if◌then◌else◌, arith, ap, ◌∙◌, sym, Bool-cases, inl, inr, subst, ◌⊎◌, ==_ne, ==_refl,
  ==_iff, ltb,
}
use os_eojin.Machine.{Machine, memset, write64}
use os_eojin.Machine.Bytes.{memset-fill, store_outside}
use os_eojin.Pmm.Alloc.{used, IsReserved}
use os_eojin.Vmm.{index, present, user_flags}
use os_eojin.Vmm.Word.{word, target, bit_or-add, word-write64, word-memset}
use os_eojin.Vmm.Tree.{walk, IsTree, Extends, StayPlain, KeepsLinks, index-lt, rest_of_walk}

-- The memory with block `c` cleared and named by entry `i` of the table in block `t`.
abbrev pub with_table : ℕ → ℕ → ℕ → (ℕ → ℕ) → ℕ → ℕ
with_table t i c mem =
    write64 (t * 4096 + 8 * i) (bit_or (c * 4096) user_flags) (memset (c * 4096) 0 4096 mem)

abbrev pub with_level : ℕ → ℕ → (ℕ → ℕ) → ℕ → ℕ
with_level c n level p = if c == p then n else level p

pub new_entry : (c : ℕ) → bit_or (c * 4096) user_flags ≡ c * 4096 + 7
new_entry c = bit_or-add 12 c 7 (omega arith)

module _ (t i c : ℕ) (mem : ℕ → ℕ) (small : i < 512) (low : c < 2 ^ 40) (ne : c ≢ t) where
  word-with_table :
      (q k : ℕ)
      → k < 512
      → word q k (with_table t i c mem)
        ≡ (if (t == q) && (i == k) then c * 4096 + 7 else if c == q then 0 else word q k mem)
  word-with_table q k small' =
      word-write64 t i q k (bit_or (c * 4096) user_flags) (memset (c * 4096) 0 4096 mem) small
        small' (omega (arith, new_entry c))
      ∙ rw (new_entry c, word-memset c q k mem small') refl

-- What changed between `m` and `m'`: entry `i` of table `t` names table `c`.
pub record Down (level level' : ℕ → ℕ) (t i c : ℕ) (m m' : Machine) : Type 0 where
  pub tree : IsTree level' m'
  pub extends : Extends level level'
  pub plain : StayPlain level level' m
  pub links : KeepsLinks level m m'
  pub linked : present (word t i m'.mem) ≡ true
  pub goes : target (word t i m'.mem) ≡ c
  pub keeps : (p j : ℕ) → 0 < level p → p ≢ t → j < 512 → word p j m'.mem ≡ word p j m.mem
  pub walks : (n b v : ℕ) → level b ≡ n → walk n b v m'.mem ≡ walk n b v m.mem
  pub outside : (a : ℕ) → level' (a / 4096) ≡ 0 → m'.mem a ≡ m.mem a
  pub busy : (j : ℕ) → used m j ≡ true → used m' j ≡ true
  pub size : m'.total_blocks ≡ m.total_blocks

pub aside :
    (t i a : ℕ) → i < 512 → t ≢ a / 4096 → (a < t * 4096 + 8 * i) ⊎ (t * 4096 + 8 * i + 8 ≤ a)
aside t i a small ne = elim (Bool-cases (ltb a (t * 4096 + 8 * i))) [
  | inl below ↦ inl (ground arith)
  | inr above ↦ inr (ground arith)
]

module _ (level : ℕ → ℕ) (m m' : Machine) (t i c : ℕ) (tree : IsTree level m) (high : 2 ≤ level t)
    (small : i < 512) (absent : present (word t i m.mem) ≡ false) (free : used m c ≡ false)
    (low : c < 2 ^ 40) (mem : m'.mem ≡ with_table t i c m.mem)
    (size : m'.total_blocks ≡ m.total_blocks) (reserved : IsReserved m')
    (marks : (j : ℕ) → used m' j ≡ (if c == j then true else used m j)) where
  no_table : level c ≡ 0
  no_table = ground (arith, tree.taken c, free)

  other : c ≢ t
  other = λ e. absurd (omega (arith, no_table, high, ap level e))

  abbrev level' : ℕ → ℕ
  level' = with_level c (level t - 1) level

  words :
      (q k : ℕ)
      → k < 512
      → word q k m'.mem
        ≡ (if (t == q) && (i == k) then c * 4096 + 7 else if c == q then 0 else word q k m.mem)
  words q k small' = rw mem (word-with_table t i c m.mem small low other q k small')

  level-other : (p : ℕ) → 0 < level p → level' p ≡ level p
  level-other p pos = elim (Bool-cases (c == p)) [
    | inl e ↦ absurd (omega (arith, no_table, pos, ap level ((==_iff c p).0 e)))
    | inr ne ↦ rw ne refl
  ]

  -- An entry that is present is the new one, or an old one.
  old_or_new :
      (p j : ℕ)
      → j < 512
      → present (word p j m'.mem) ≡ true
      → ((t ≡ p) × (i ≡ j) × (target (word p j m'.mem) ≡ c))
        ⊎ ((c ≢ p) × (word p j m'.mem ≡ word p j m.mem) × (present (word p j m.mem) ≡ true))
  old_or_new p j small' there = elim (Bool-cases ((t == p) && (i == j))) [
    | inl new ↦
        let value : word p j m'.mem ≡ c * 4096 + 7 = words p j small' ∙ rw new refl in
        inl (ground arith, ground arith, omega (arith, value))
    | inr old ↦ elim (Bool-cases (c == p)) [
      | inl here ↦
          let value : word p j m'.mem ≡ 0 = words p j small' ∙ rw (old, here) refl in
          absurd (ground (arith, value))
      | inr ne ↦
          let value : word p j m'.mem ≡ word p j m.mem = words p j small' ∙ rw (old, ne) refl in
          inr (ground arith, value, subst (λ w. present w ≡ true) value there)
    ]
  ]

  level-level' : (p : ℕ) → c ≢ p → level' p ≡ level p
  level-level' p ne = rw (==_ne c p ne) refl

  level-t : level' t ≡ level t
  level-t = level-level' t other

  level-c : level' c ≡ level t - 1
  level-c = rw (==_refl c) refl

  names' :
      (p j : ℕ)
      → 2 ≤ level' p
      → j < 512
      → present (word p j m'.mem) ≡ true
      → level' (target (word p j m'.mem)) + 1 ≡ level' p
  names' p j two small' there = elim (old_or_new p j small' there) [
    | inl (e, e', goes) ↦ omega (arith, ap level' goes, level-c, level-t, high, ap level' e)
    | inr (ne, same, there') ↦
        let up = level-level' p ne in
        let below = tree.names p j (omega (arith, two, up)) small' there' in
        let one = level-other (target (word p j m.mem)) (omega (arith, below, two, up)) in
        omega (arith, ap (λ w. level' (target w)) same, one, below, up)
  ]

  -- An old entry does not name the new table.
  old-ne :
      (p j : ℕ)
      → 2 ≤ level' p
      → j < 512
      → c ≢ p
      → word p j m'.mem ≡ word p j m.mem
      → present (word p j m.mem) ≡ true
      → target (word p j m'.mem) ≢ c
  old-ne p j two small' ne same there e =
      let below = tree.names p j (omega (arith, two, level-level' p ne)) small' there in
      absurd (
        omega (arith, below, two, level-level' p ne, no_table, ap level (ap target (sym same) ∙ e)))

  single' :
      (p j q k : ℕ)
      → 2 ≤ level' p
      → 2 ≤ level' q
      → j < 512
      → k < 512
      → present (word p j m'.mem) ≡ true
      → present (word q k m'.mem) ≡ true
      → target (word p j m'.mem) ≡ target (word q k m'.mem)
      → (j ≡ k) × (level' p < 4 → p ≡ q)
  single' p j q k two two' less less' there there' e = elim (old_or_new p j less there) [
    | inl (a, b, goes) ↦ elim (old_or_new q k less' there') [
      | inl (a', b', goes') ↦ (omega (arith, b, b'), λ h. omega (arith, a, a'))
      | inr (ne', same', was') ↦ absurd (old-ne q k two' less' ne' same' was' (sym e ∙ goes))
    ]
    | inr (ne, same, was) ↦ elim (old_or_new q k less' there') [
      | inl (a', b', goes') ↦ absurd (old-ne p j two less ne same was (e ∙ goes'))
      | inr (ne', same', was') ↦
          let up = level-level' p ne in
          let (turn, one) =
            tree.single p j q k (omega (arith, two, up)) (omega (arith, two', level-level' q ne'))
              less less' was was' (ap target (sym same) ∙ e ∙ ap target same') in
          (turn, λ h. one (omega (arith, h, up)))
    ]
  ]

  IsTree' : IsTree level' m'
  IsTree' = record {
    reserved = reserved;
    few = omega (arith, size, tree.few);
    taken = λ p some'. elim (Bool-cases (c == p)) [
      | inl e ↦ marks p ∙ rw e refl
      | inr ne ↦ marks p ∙ rw ne (tree.taken p (subst (λ n. 0 < n) (rw ne refl) some'))
    ];
    bound = λ p. ground (arith, tree.bound p, tree.bound t);
    names = names';
    single = single';
  }

  links' : KeepsLinks level m m'
  links' p j two less was = elim (Bool-cases ((t == p) && (i == j))) [
    | inl new ↦
        let at_t : t ≡ p = ground arith in
        let at_i : i ≡ j = ground arith in
        let was' : present (word t i m.mem) ≡ true =
          subst (λ q. present (word q i m.mem) ≡ true) (sym at_t)
            (subst (λ k. present (word p k m.mem) ≡ true) (sym at_i) was) in
        absurd (ground (arith, was', absent))
    | inr old ↦
        words p j less
        ∙ rw (old, ==_ne c p (λ e. absurd (omega (arith, no_table, two, ap level e)))) refl
  ]

  -- The new table is empty.
  walk-new : (n v : ℕ) → 0 < n → walk n c v m'.mem ≡ none
  unfolding walk
  walk-new zero v pos = absurd (omega arith)
  walk-new (suc n) v pos =
      let value : word c (index n v) m'.mem ≡ 0 =
        words c (index n v) (index-lt n v) ∙ rw (==_ne t c (λ e. other (sym e)), ==_refl c) refl in
      rw value refl

  walks' : (n b v : ℕ) → level b ≡ n → walk n b v m'.mem ≡ walk n b v m.mem
  unfolding walk
  walks' zero b v here = refl
  walks' (suc n) b v here = elim (Bool-cases ((t == b) && (i == index n v))) [
    | inl new ↦
        let at_t : t ≡ b = ground arith in
        let at_i : i ≡ index n v = ground arith in
        let value : word b (index n v) m'.mem ≡ c * 4096 + 7 =
          words b (index n v) (index-lt n v) ∙ rw new refl in
        let there : present (word b (index n v) m'.mem) ≡ true = ground (arith, value) in
        let goes : target (word b (index n v) m'.mem) ≡ c = omega (arith, value, low) in
        let was : present (word b (index n v) m.mem) ≡ false =
          subst (λ p. present (word p (index n v) m.mem) ≡ false) at_t
            (subst (λ j. present (word t j m.mem) ≡ false) at_i absent) in
        rw (there, was, goes) (walk-new n v (omega (arith, here, high, ap level at_t)))
    | inr old ↦
        let ne : c ≢ b = λ e. absurd (omega (arith, no_table, here, ap level e)) in
        let value : word b (index n v) m'.mem ≡ word b (index n v) m.mem =
          words b (index n v) (index-lt n v) ∙ rw (old, ==_ne c b ne) refl in
        elim (Bool-cases (present (word b (index n v) m.mem))) [
          | inr gone ↦ rw (value, gone) refl
          | inl there ↦
              rw (value, there)
                (rest_of_walk level m m'.mem n b v tree here there (λ d h. walks' n d v h))
        ]
  ]

  outside' : (a : ℕ) → level' (a / 4096) ≡ 0 → m'.mem a ≡ m.mem a
  outside' a plain =
      let ne : t ≢ a / 4096 = λ e. absurd (omega (arith, plain, level-t, high, ap level' e)) in
      let ne' : c ≢ a / 4096 = λ e. absurd (omega (arith, plain, level-c, high, ap level' e)) in
      ap (λ f. f a) mem
      ∙ store_outside 8 (t * 4096 + 8 * i) (bit_or (c * 4096) user_flags) a
          (memset (c * 4096) 0 4096 m.mem) (aside t i a small ne)
      ∙ memset-fill 4096 (c * 4096) 0 a m.mem
      ∙ ground arith

  pub made-Down : Down level level' t i c m m'
  made-Down =
      let value : word t i m'.mem ≡ c * 4096 + 7 =
        words t i small ∙ rw (==_refl t, ==_refl i) refl in
      record {
        tree = IsTree';
        extends = level-other;
        links = links';
        plain = λ p was none'.
            level-level' p (λ h. absurd (ground (arith, was, free, ap (used m) h))) ∙ none';
        linked = ground (arith, value);
        goes = omega (arith, value, low);
        keeps = λ p j pos ne less.
            words p j less
            ∙ rw
                (
                  ==_ne t p (λ e. ne (sym e)),
                  ==_ne c p (λ e. absurd (omega (arith, no_table, pos, ap level e))),
                )
                refl;
        walks = walks';
        outside = outside';
        busy = λ j was. marks j ∙ ground (arith, was);
        size = size;
      }
