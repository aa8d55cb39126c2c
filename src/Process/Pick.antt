-- ===== src/Process/Pick.antt =====
-- The search of `schedule` of src/kernel/process/process.c.
use os_eojin.Base.{
  ℕ, zero, suc, ◌+◌, ◌-◌, ◌≤◌, ◌<◌, ◌≡◌, ◌≢◌, true, false, not, ◌==◌, ltb, ◌&&◌, ◌||◌,
  if◌then◌else◌, arith, inl, inr, some, Bool-cases,
}
use os_eojin.Process.{Process, advance, pick, is_ready}

-- How many steps round the table lead from `a` to `b`, at least 1.
abbrev pub distance : ℕ → ℕ → ℕ → ℕ
distance count a b = if ltb a b then b - a else count + b - a

-- `n` is the first process after `a` that is ready or `current`: every process passed on the way
-- there is not ready.
pub record IsNext (count current : ℕ) (processes : ℕ → Process) (a n : ℕ) : Type 0 where
  pub below : n < count
  pub fits : (is_ready (processes n).state || n == current) ≡ true
  pub passed :
      (j : ℕ)
      → j < count
      → distance count a j < distance count a n
      → is_ready (processes j).state ≡ false

advance-lt : (count a : ℕ) → a < count → advance count a < count
advance-lt count a h = ground arith

-- One step on, every other process is one step nearer.
pub distance-advance :
    (count a j : ℕ)
    → a < count
    → j < count
    → advance count a ≢ j
    → distance count a j ≡ distance count (advance count a) j + 1
distance-advance count a j ha hj ne = ground arith

IsNext-step :
    (count current : ℕ) (processes : ℕ → Process) (a n : ℕ)
    → a < count
    → (not (is_ready (processes (advance count a)).state) && not (advance count a == current))
      ≡ true
    → IsNext count current processes (advance count a) n
    → IsNext count current processes a n
IsNext-step count current processes a n ha more next =
    let other : advance count a ≢ n = λ e. ground (arith, next.fits) in
    record {
      below = next.below;
      fits = next.fits;
      passed = λ j hj p. elim (Bool-cases (advance count a == j)) [
        | inl e ↦ ground arith
        | inr ne ↦ next.passed j hj (
            omega (
              arith,
              distance-advance count a j ha hj (ground arith),
              distance-advance count a n ha next.below other,
            ))
      ];
    }

-- The loop stops within as many rounds as lead back to `current`.
pub pick-IsNext :
    (rounds count current : ℕ) (processes : ℕ → Process) (a : ℕ)
    → a < count
    → current < count
    → distance count a current ≤ rounds
    → (n : ℕ) × (pick rounds count current processes a ≡ some n)
      × IsNext count current processes a n
unfolding pick
pick-IsNext zero count current processes a ha hc h = absurd (ground arith)
pick-IsNext (suc rounds) count current processes a ha hc h =
    elim (Bool-cases
      (not (is_ready (processes (advance count a)).state) && not (advance count a == current))) [
        | inl more ↦
            let b = advance count a in
            let ne : b ≢ current = ground arith in
            let (n, e, next) =
              pick-IsNext rounds count current processes b (advance-lt count a ha) hc
                (omega (arith, distance-advance count a current ha hc ne)) in
            (n, rw (more, e), IsNext-step count current processes a n ha more next)
        | inr stop ↦ (
          advance count a,
          rw stop,
          record {
            below = ground arith;
            fits = ground arith;
            passed = λ j hj p. absurd (ground arith);
          },
        )
      ]
