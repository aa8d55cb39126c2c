-- ===== src/Process/Fair.antt =====
-- Every ready process gets the processor: round-robin turns of `schedule` at timer interrupts.
use os_eojin.Base.{
  ℕ, zero, suc, ◌≤◌, ◌<◌, ◌≡◌, ◌≢◌, true, ◌==◌, arith, inl, inr, Option, none, some, List, [], ◌∷◌,
  Bool-cases, ==_iff, length, take, subst, sym,
}
use os_eojin.Process.{Kernel, is_ready, schedule_from, schedule}
use os_eojin.Process.Pick.{distance}
use os_eojin.Process.Schedule.{IsValid, saved, saved_ne, schedule_lem}

-- Timer interrupts in a row, each at the stack pointer that it finds.
pub ticks : List ℕ → Kernel → Option Kernel
ticks [] k = some k
ticks (rsp ∷ rest) k = elim (schedule rsp k) [ none ↦ none | some (_, k') ↦ ticks rest k' ]

-- From a process passed on the way, the way is shorter.
distance-between :
    (count c n i d : ℕ)
    → c < count
    → n < count
    → i < count
    → distance count c n ≤ distance count c i
    → n ≢ i
    → distance count c i ≤ suc d
    → distance count n i ≤ d
distance-between count c n i d hc hn hi h ne near = ground arith

fair_within :
    (d c i : ℕ) (k : Kernel) (rsps : List ℕ)
    → IsValid k c
    → i < k.process_count
    → i ≢ c
    → is_ready (k.processes i).state ≡ true
    → distance k.process_count c i ≤ d
    → d ≤ length rsps
    → (n : ℕ) × (n ≤ d) × (k' : Kernel) × (ticks (take n rsps) k ≡ some k') × IsValid k' i
unfolding ticks
fair_within zero c i k rsps v hi ne waits near long = absurd (ground (arith, v.below))
fair_within (suc d) c i k [] v hi ne waits near long = absurd (omega arith)
fair_within (suc d) c i k (rsp ∷ rsps) v hi ne waits near long =
    let still : is_ready (saved rsp c k i).state ≡ true = ground (arith, saved_ne rsp c k v i) in
    let (e, (n, can_run, next, sw, v')) =
      schedule_lem rsp c k v (record { which = i; below = hi; can_run = still }) in
    elim (Bool-cases (n == i)) [
      | inl same ↦ (
        1,
        omega arith,
        (schedule_from c rsp k).1,
        rw (e, ticks),
        subst (IsValid (schedule_from c rsp k).1) ((==_iff n i).0 same) v',
      )
      | inr other ↦
          let k1 = (schedule_from c rsp k).1 in
          let apart : n ≢ i = ground arith in
          let nearer : distance k.process_count c n ≤ distance k.process_count c i =
            ground (arith, next.passed i) in
          let left =
            distance-between k.process_count c n i d v.below next.below hi nearer apart near in
          let (m, few, k', run, valid) =
            fair_within d n i k1 rsps v' (omega (arith, sw.count)) (λ q. apart (sym q))
              (ground (arith, sw.others i, still)) (rw sw.count left) (omega arith) in
          (suc m, omega arith, k', rw (e, ticks) run, valid)
    ]

-- A ready process becomes the current one within as many timer interrupts as there are processes,
-- whatever stack pointers the interrupts find.
pub schedule_fair :
    (c i : ℕ) (k : Kernel) (rsps : List ℕ)
    → IsValid k c
    → i < k.process_count
    → i ≢ c
    → is_ready (k.processes i).state ≡ true
    → k.process_count ≤ length rsps
    → (n : ℕ) × (n ≤ k.process_count)
      × (k' : Kernel) × (ticks (take n rsps) k ≡ some k')
      × IsValid k' i
schedule_fair c i k rsps v hi ne waits long =
    fair_within k.process_count c i k rsps v hi ne waits (ground (arith, v.below)) long
