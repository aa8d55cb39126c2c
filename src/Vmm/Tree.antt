-- ===== src/Vmm/Tree.antt =====
-- The tree of page tables, as the processor walks it.
use os_eojin.Base.{
  ◌*◌, ℕ, zero, suc, ◌+◌, ◌/◌, ◌^◌, ◌≤◌, ◌<◌, ◌≡◌, refl, true, Option, none, some, if◌then◌else◌,
  arith, Bool-cases, inl, inr,
}
use os_eojin.Machine.{Machine}
use os_eojin.Pmm.Alloc.{used, IsReserved}
use os_eojin.Vmm.{index, present}
use os_eojin.Vmm.Word.{word, target}

-- The walk of the processor from the table in block `b`, `n` levels down: the block that it comes to,
-- or `none` at an entry that is not present, a page fault.
unfoldable pub walk : (n b vaddr : ℕ) → (ℕ → ℕ) → Option ℕ
walk zero b vaddr mem = some b
walk (suc n) b vaddr mem =
    let entry = word b (index n vaddr) mem in
    let rest = walk n (target entry) vaddr mem in if present entry then rest else none

-- The first step of a walk.
pub walk-suc :
    (n b v : ℕ) (mem : ℕ → ℕ)
    → walk (suc n) b v mem ≡ (
        if present (word b (index n v) mem)
        then walk n (target (word b (index n v) mem)) v mem
        else none)
unfolding walk
walk-suc n b v mem = refl

-- Addresses of one page are walked alike.
pub walk_page : (b v w : ℕ) (mem : ℕ → ℕ) → v / 4096 ≡ w / 4096 → walk 4 b v mem ≡ walk 4 b w mem
unfolding walk
walk_page b v w mem same =
    let e0 : index 0 v ≡ index 0 w = omega (arith, same) in
    let e1 : index 1 v ≡ index 1 w = omega (arith, same) in
    let e2 : index 2 v ≡ index 2 w = omega (arith, same) in
    let e3 : index 3 v ≡ index 3 w = omega (arith, same) in rw (e0, e1, e2, e3) refl

-- The table of the last level on the way, of a walk of `n` levels and one.
unfoldable pub leaf : (n b vaddr : ℕ) → (ℕ → ℕ) → Option ℕ
leaf zero b vaddr mem = some b
leaf (suc n) b vaddr mem =
    let entry = word b (index (suc n) vaddr) mem in
    let rest = leaf n (target entry) vaddr mem in if present entry then rest else none

-- `level b` is 1 to 4 for a block that holds a table, from the last level to PML4, and 0 for any
-- other block. Tables are in use, and an entry names a table of the next level. No two entries name
-- one table, except for entries of the same index in two PML4s.
pub record IsTree (level : ℕ → ℕ) (m : Machine) : Type 0 where
  pub reserved : IsReserved m
  pub few : m.total_blocks ≤ 2 ^ 40
  pub taken : (p : ℕ) → 0 < level p → used m p ≡ true
  pub bound : (p : ℕ) → level p ≤ 4
  pub names :
      (p j : ℕ)
      → 2 ≤ level p
      → j < 512
      → present (word p j m.mem) ≡ true
      → level (target (word p j m.mem)) + 1 ≡ level p
  pub single :
      (p j q i : ℕ)
      → 2 ≤ level p
      → 2 ≤ level q
      → j < 512
      → i < 512
      → present (word p j m.mem) ≡ true
      → present (word q i m.mem) ≡ true
      → target (word p j m.mem) ≡ target (word q i m.mem)
      → (j ≡ i) × (level p < 4 → p ≡ q)

-- The blocks and the tables lie below `limit`, and that in the 512MB which the kernel maps to themselves:
-- while no page below `limit` is mapped anew, it reaches them at their own addresses.
pub record IsReached (limit : ℕ) (level : ℕ → ℕ) (m : Machine) : Type 0 where
  pub identity : limit ≤ 131072 * 4096
  pub blocks : m.total_blocks * 4096 ≤ limit
  pub tables : (p : ℕ) → 0 < level p → p * 4096 < limit

-- The new tables keep the old ones.
abbrev pub Extends : (ℕ → ℕ) → (ℕ → ℕ) → Type 0
Extends level level' = (p : ℕ) → 0 < level p → level' p ≡ level p

-- A block that is in use for something else does not become a table.
abbrev pub StayPlain : (ℕ → ℕ) → (ℕ → ℕ) → Machine → Type 0
StayPlain level level' m = (p : ℕ) → used m p ≡ true → level p ≡ 0 → level' p ≡ 0

-- A table that is named stays named by the same entry.
abbrev pub KeepsLinks : (ℕ → ℕ) → Machine → Machine → Type 0
KeepsLinks level m m' =
    (p j : ℕ)
    → 2 ≤ level p
    → j < 512
    → present (word p j m.mem) ≡ true
    → word p j m'.mem ≡ word p j m.mem

pub index-lt : (n vaddr : ℕ) → index n vaddr < 512
index-lt n vaddr = omega arith

-- The rest of a walk behind an entry that is present, in another memory.
pub rest_of_walk :
    (level : ℕ → ℕ) (m : Machine) (mem : ℕ → ℕ) (n b v : ℕ)
    → IsTree level m
    → level b ≡ suc n
    → present (word b (index n v) m.mem) ≡ true
    → ((d : ℕ) → level d ≡ n → walk n d v mem ≡ walk n d v m.mem)
    → walk n (target (word b (index n v) m.mem)) v mem
      ≡ walk n (target (word b (index n v) m.mem)) v m.mem
unfolding walk
rest_of_walk level m mem zero b v tree here there ih = refl
rest_of_walk level m mem (suc n) b v tree here there ih =
    let down = tree.names b (index (suc n) v) (omega (arith, here)) (index-lt (suc n) v) there in
    ih (target (word b (index (suc n) v) m.mem)) (omega (arith, down, here))

-- The last table is one of level 1.
pub level-leaf :
    (level : ℕ → ℕ) (m : Machine) (n b vaddr t : ℕ)
    → IsTree level m
    → level b ≡ suc n
    → leaf n b vaddr m.mem ≡ some t
    → level t ≡ 1
unfolding leaf
level-leaf level m zero b vaddr t tree here e = ground arith
level-leaf level m (suc n) b vaddr t tree here e =
    let entry = word b (index (suc n) vaddr) m.mem in
    elim (Bool-cases (present entry)) [
      | inl there ↦
          let below =
            tree.names b (index (suc n) vaddr) (omega (arith, here)) (index-lt (suc n) vaddr)
              there in
          level-leaf level m n (target entry) vaddr t tree (omega (arith, below, here))
            (ground arith)
      | inr gone ↦ absurd (ground arith)
    ]

-- The last step of a walk.
abbrev pub at_leaf : ℕ → (ℕ → ℕ) → Option ℕ → Option ℕ
at_leaf vaddr mem none = none
at_leaf vaddr mem (some t) =
    let entry = word t (index 0 vaddr) mem in if present entry then some (target entry) else none

-- A walk is the way to the last table, and the entry there.
pub walk-leaf :
    (n b vaddr : ℕ) (mem : ℕ → ℕ)
    → walk (suc n) b vaddr mem ≡ at_leaf vaddr mem (leaf n b vaddr mem)
unfolding walk leaf
walk-leaf zero b vaddr mem = refl
walk-leaf (suc n) b vaddr mem =
    let entry = word b (index (suc n) vaddr) mem in
    elim (Bool-cases (present entry)) [
      | inl there ↦ rw there (walk-leaf n (target entry) vaddr mem)
      | inr gone ↦ rw gone refl
    ]

-- Two addresses take the same turns at the levels 1 to `n`.
abbrev pub SameTurns : ℕ → ℕ → ℕ → Type 0
SameTurns zero v w = Unit
SameTurns (suc n) v w = (index (suc n) v ≡ index (suc n) w) × SameTurns n v w

-- Two ways that come to one table take the same turns.
pub leaf-single :
    (level : ℕ → ℕ) (m : Machine) (n b c v w t : ℕ)
    → IsTree level m
    → level b ≡ suc n
    → level c ≡ suc n
    → leaf n b v m.mem ≡ some t
    → leaf n c w m.mem ≡ some t
    → (suc n < 4 → b ≡ c) × SameTurns n v w
unfolding leaf
leaf-single level m zero b c v w t tree hb hc e e' = (λ small. ground arith, tt)
leaf-single level m (suc n) b c v w t tree hb hc e e' =
    let entry = word b (index (suc n) v) m.mem in
    let entry' = word c (index (suc n) w) m.mem in
    elim (Bool-cases (present entry)) [
      | inr gone ↦ absurd (ground arith)
      | inl there ↦ elim (Bool-cases (present entry')) [
        | inr gone' ↦ absurd (ground arith)
        | inl there' ↦
            let two : 2 ≤ level b = omega (arith, hb) in
            let two' : 2 ≤ level c = omega (arith, hc) in
            let below = tree.names b (index (suc n) v) two (index-lt (suc n) v) there in
            let below' = tree.names c (index (suc n) w) two' (index-lt (suc n) w) there' in
            let four = tree.bound b in
            let (same, turns) =
              leaf-single level m n (target entry) (target entry') v w t tree
                (omega (arith, below, hb)) (omega (arith, below', hc)) (ground arith)
                (ground arith) in
            let (turn, up) =
              tree.single b (index (suc n) v) c (index (suc n) w) two two' (index-lt (suc n) v)
                (index-lt (suc n) w) there there' (same (omega (arith, four, hb))) in
            (λ small. up (omega (arith, hb, small)), (turn, turns))
      ]
    ]
