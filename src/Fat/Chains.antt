-- ===== src/Fat/Chains.antt =====
-- `fat_free_cluster_chain` of src/fs/fat.c on a chain of clusters.
use os_eojin.Base.{
  ℕ, zero, suc, ◌^◌, ◌<◌, ◌≤◌, ◌≡◌, refl, Bool, true, false, List, [], ◌∷◌, ltb, ◌||◌,
  if◌then◌else◌, ◌==◌, arith, ◌∙◌, sym, some, subst, length,
}
use os_eojin.Fat.{
  Allocator, Fat, fat_next_cluster, fat_write_fat_entry, free_chain, fat_free_cluster_chain,
}
use os_eojin.Fat.Entry.{
  aside, Mounted, entry, fat_next_cluster-entry, entry-fat_write_fat_entry,
  Mounted-fat_write_fat_entry,
}

abbrev pub member : ℕ → List ℕ → Bool
member d [] = false
member d (c ∷ cs) = (c == d) || member d cs

module _ {A : Allocator} where
  -- The entries of `f` link these clusters from `first` on, each once, up to an end mark.
  abbrev pub Linked : List ℕ → ℕ → Fat A → Type 0
  Linked [] first f = (65528 ≤ first) × (first < 2 ^ 16)
  Linked (c ∷ cs) first f =
      (first ≡ c) × (c < 65528) × (member c cs ≡ false) × Linked cs (entry c f) f

  Linked-fat_write_fat_entry :
      (c v : ℕ) (cs : List ℕ) (first : ℕ) (f : Fat A)
      → c < 2 ^ 16
      → v < 2 ^ 16
      → Mounted f
      → member c cs ≡ false
      → Linked cs first f
      → Linked cs first (fat_write_fat_entry c v f)
  Linked-fat_write_fat_entry c v [] first f small fits on out l = l
  Linked-fat_write_fat_entry c v (d ∷ cs) first f small fits on out l =
      let ne : (c == d) ≡ false = ground arith in
      let same : entry d (fat_write_fat_entry c v f) ≡ entry d f =
        entry-fat_write_fat_entry c d v f small (omega (arith, l.1)) fits on ∙ rw ne refl in
      (
        l.0,
        l.1,
        l.2,
        subst (λ n. Linked cs n (fat_write_fat_entry c v f)) (sym same)
            (Linked-fat_write_fat_entry c v cs (entry d f) f small fits on (ground arith) l.3),
      )

  -- A chain depends on the drive and on the place of the table alone.
  pub Linked-aside :
      (cs : List ℕ) (first : ℕ) (heap : A.State) (console : List (List ℕ)) (f : Fat A)
      → Linked cs first f
      → Linked cs first (aside heap console f)
  Linked-aside [] first heap console f l = l
  Linked-aside (c ∷ cs) first heap console f l =
      (l.0, l.1, l.2, Linked-aside cs (entry c f) heap console f l.3)

  free_chain-Linked :
      (fuel : ℕ) (cs : List ℕ) (first : ℕ) (f : Fat A)
      → length cs < fuel
      → Mounted f
      → Linked cs first f
      → (f' : Fat A) × (free_chain fuel first f ≡ some f')
        × Mounted f'
        × ((d : ℕ) → d < 2 ^ 16 → entry d f' ≡ (if member d cs then 0 else entry d f))
  unfolding free_chain fat_next_cluster
  free_chain-Linked zero cs first f long on l = absurd (omega arith)
  free_chain-Linked (suc fuel) [] first f long on l =
      let e : ltb first 65528 ≡ false = ground (arith, l.0) in (f, rw e refl, on, λ d small. refl)
  free_chain-Linked (suc fuel) (c ∷ cs) first f long on l =
      let small : first < 2 ^ 16 = omega (arith, l.0, l.1) in
      let f1 = (fat_next_cluster first f).1 in
      let f2 = fat_write_fat_entry first 0 f1 in
      let on1 : Mounted f1 = record { low = on.low; ready = on.ready } in
      let next = fat_next_cluster-entry first f small on in
      let less : ltb first 65528 ≡ true = ground (arith, l.0, l.1) in
      let out : member first cs ≡ false = rw l.0 l.2 in
      let rest : Linked cs (fat_next_cluster first f).0 f2 =
        Linked-fat_write_fat_entry first 0 cs (fat_next_cluster first f).0 f1 small (omega arith)
          on1 out
          (Linked-aside cs (fat_next_cluster first f).0 f1.heap f.console f (
            subst (λ n. Linked cs n f) (sym next)
              (subst (λ n. Linked cs (entry n f) f) (sym l.0) l.3))) in
      let (f', ends, on', freed) =
        free_chain-Linked fuel cs (fat_next_cluster first f).0 f2 (omega (arith, long))
          (Mounted-fat_write_fat_entry first 0 f1 on1) rest in
      (
        f',
        rw less ends,
        on',
        λ d low.
            let one = entry-fat_write_fat_entry first d 0 f1 small low (omega arith) on1 in
            freed d low ∙ ground (arith, one, l.0),
      )

  -- On a drive that answers, for a chain of clusters from 2 on that the table links, each once, up
  -- to an end mark, fat_free_cluster_chain ends with fuel for each of them: their entries are 0,
  -- and every other entry is as it was.
  pub fat_free_cluster_chain-Linked :
      (fuel : ℕ) (c : ℕ) (cs : List ℕ) (f : Fat A)
      → length (c ∷ cs) < fuel
      → 2 ≤ c
      → Mounted f
      → Linked (c ∷ cs) c f
      → (f' : Fat A) × (fat_free_cluster_chain fuel c f ≡ some f')
        × ((d : ℕ) → d < 2 ^ 16 → entry d f' ≡ (if member d (c ∷ cs) then 0 else entry d f))
  unfolding fat_free_cluster_chain
  fat_free_cluster_chain-Linked fuel c cs f long two on l =
      let (f', ends, on', freed) = free_chain-Linked fuel (c ∷ cs) c f long on l in
      let high : ltb c 2 ≡ false = ground arith in (f', rw high ends, freed)
