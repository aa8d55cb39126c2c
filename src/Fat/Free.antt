-- ===== src/Fat/Free.antt =====
-- `fat_allocate_cluster` of src/fs/fat.c against the table of entries.
use os_eojin.Base.{
  ℕ, zero, suc, ◌+◌, ◌*◌, ◌/◌, ◌%◌, ◌^◌, ◌<◌, ◌≤◌, ◌≡◌, ◌≢◌, refl, ltb, if◌then◌else◌, ◌==◌, arith,
  ◌∙◌, sym, Option, none, some, subst, Bool-cases, inl, inr, ==_iff, ◌⊎◌, ltb→lt,
}
use os_eojin.Fat.{
  Allocator, Fat, u16, u32, get16, find_free, search_fat, claim, fat_allocate_cluster, read_sector,
  new_buffer,
}
use os_eojin.Fat.Entry.{Mounted, entry, get16-ata_read_sector, entry-fat_write_fat_entry}

-- Where a search for a 0 among the entries `from .. to - 1` of a table may end, entries 0 and 1 left out.
abbrev pub Searched : (ℕ → ℕ) → ℕ → ℕ → Option ℕ → Type 0
Searched table from to none = (d : ℕ) → from ≤ d → d < to → 2 ≤ d → table d ≢ 0
Searched table from to (some c) =
    (from ≤ c)
    × (c < to)
    × (2 ≤ c)
    × (table c ≡ 0)
    × ((d : ℕ) → from ≤ d → d < c → 2 ≤ d → table d ≢ 0)

-- The first entry of a range passed over.
Searched-suc :
    (table : ℕ → ℕ) (from to : ℕ) (o : Option ℕ)
    → (2 ≤ from → table from ≢ 0)
    → Searched table (suc from) to o
    → Searched table from to o
Searched-suc table from to none here rest = λ d lo hi two. elim (Bool-cases (from == d)) [
  | inl e ↦
      let same : from ≡ d = (==_iff from d).0 e in
      subst (λ x. table x ≢ 0) same (here (omega arith))
  | inr ne ↦ rest d (ground arith) hi two
]
Searched-suc table from to (some c) here rest = (
  omega (arith, rest.0),
  rest.1,
  rest.2,
  rest.3,
  λ d lo hi two. elim (Bool-cases (from == d)) [
    | inl e ↦
        let same : from ≡ d = (==_iff from d).0 e in
        subst (λ x. table x ≢ 0) same (here (omega arith))
    | inr ne ↦ rest.4 d (ground arith) hi two
  ],
)

-- A range without a free entry before another range.
Searched-append :
    (table : ℕ → ℕ) (from mid to : ℕ) (o : Option ℕ)
    → from ≤ mid
    → Searched table from mid none
    → Searched table mid to o
    → Searched table from to o
Searched-append table from mid to none le first rest = λ d lo hi two.
    elim (Bool-cases (ltb d mid)) [
      | inl less ↦ first d lo (ltb→lt _ _ less) two
      | inr more ↦ rest d (ground arith) hi two
    ]
Searched-append table from mid to (some c) le first rest = (
  omega (arith, rest.0),
  rest.1,
  rest.2,
  rest.3,
  λ d lo hi two. elim (Bool-cases (ltb d mid)) [
    | inl less ↦ first d lo (ltb→lt _ _ less) two
    | inr more ↦ rest.4 d (ground arith) hi two
  ],
)

find_free-Searched :
    (rounds j i : ℕ) (buffer table : ℕ → ℕ)
    → j + rounds ≡ 256
    → i < 256
    → ((k : ℕ) → k < 256 → get16 buffer (k * 2) ≡ table (i * 256 + k))
    → Searched table (i * 256 + j) (i * 256 + 256) (find_free rounds j i buffer)
unfolding find_free
find_free-Searched zero j i buffer table e small holds = λ d lo hi two. absurd (omega arith)
find_free-Searched (suc rounds) j i buffer table e small holds =
    let on : i * 256 + (j + 1) ≡ suc (i * 256 + j) = omega arith in
    let rest =
      subst (λ n. Searched table n (i * 256 + 256) (find_free rounds (j + 1) i buffer)) on
        (find_free-Searched rounds (j + 1) i buffer table (omega arith) small holds) in
    let number : u16 (i * 256 + j) ≡ i * 256 + j = omega arith in
    let value = holds j (omega arith) in
    elim (Bool-cases (ltb (i * 256 + j) 2)) [
      | inl low ↦
          rw (number, low)
            (Searched-suc table (i * 256 + j) (i * 256 + 256) (find_free rounds (j + 1) i buffer)
              (λ two. absurd (omega (arith, ltb→lt _ _ low))) rest)
      | inr high ↦ elim (Bool-cases (get16 buffer (j * 2) == 0)) [
        | inl free ↦
            let z = (==_iff (get16 buffer (j * 2)) 0).0 free in
            rw (number, high, free)
              (
                omega arith,
                omega arith,
                ground arith,
                sym value ∙ z,
                λ d lo hi two. absurd (omega arith),
              )
        | inr used ↦
            rw (number, high, used)
              (Searched-suc table (i * 256 + j) (i * 256 + 256) (find_free rounds (j + 1) i buffer)
                (λ two zero'. ground (arith, value, used, zero')) rest)
      ]
    ]

module _ {A : Allocator} where
  -- What one sector gives, then what the later ones give.
  next_sector :
      (i rounds : ℕ) (f : Fat A) (o rest : Option ℕ)
      → Searched (λ c. entry c f) (i * 256 + 0) (i * 256 + 256) o
      → Searched (λ c. entry c f) ((i + 1) * 256) ((i + 1 + rounds) * 256) rest
      → Searched
          (λ c. entry c f)
          (i * 256)
          ((i + suc rounds) * 256)
          (elim o [ some cluster ↦ some cluster | none ↦ rest ])
  next_sector i rounds f none rest here later =
      let start : (i + 1) * 256 ≡ i * 256 + 256 = omega arith in
      let end' : (i + 1 + rounds) * 256 ≡ (i + suc rounds) * 256 = omega arith in
      Searched-append (λ c. entry c f) (i * 256) (i * 256 + 256) ((i + suc rounds) * 256) rest
        (omega arith) (λ d lo hi two. here d (omega arith) hi two)
        (subst (λ n. Searched (λ c. entry c f) n ((i + suc rounds) * 256) rest) start
          (subst (λ n. Searched (λ c. entry c f) ((i + 1) * 256) n rest) end' later))
  next_sector i rounds f (some c) rest here later = (
    omega (arith, here.0),
    omega (arith, here.1),
    here.2,
    here.3,
    λ d lo hi two. here.4 d (omega arith) hi two,
  )

  search_fat-Searched :
      (rounds i : ℕ) (buffer : ℕ → ℕ) (f : Fat A)
      → i + rounds ≤ 256
      → Mounted f
      → Searched (λ c. entry c f) (i * 256) ((i + rounds) * 256) (search_fat rounds i buffer f)
  unfolding search_fat
  search_fat-Searched zero i buffer f small on = λ d lo hi two. absurd (omega arith)
  search_fat-Searched (suc rounds) i buffer f small on =
      let buffer' = read_sector (u32 (f.fat_start_sector + i)) buffer f in
      let lba : u32 (f.fat_start_sector + i) ≡ f.fat_start_sector + i = omega (arith, on.low) in
      let holds : (k : ℕ) → k < 256 → get16 buffer' (k * 2) ≡ entry (i * 256 + k) f = λ k less.
        let hi : (i * 256 + k) / 256 ≡ i = omega arith in
        let lo : (i * 256 + k) % 256 ≡ k = omega arith in
        rw (lba, hi, lo)
          (get16-ata_read_sector (f.fat_start_sector + i) k buffer f.drive (omega (arith, on.low))
            less on.ready) in
      let here = find_free-Searched 256 0 i buffer' (λ c. entry c f) refl (omega arith) holds in
      let rest = search_fat-Searched rounds (i + 1) buffer' f (omega arith) on in
      next_sector i rounds f (find_free 256 0 i buffer') (search_fat rounds (i + 1) buffer' f) here
        rest

  claimed :
      (p : ℕ) (heap : A.State) (f : Fat A) (o : Option ℕ)
      → f.fat_info.fat_size_16 ≤ 256
      → Mounted f
      → Searched (λ c. entry c f) 0 (f.fat_info.fat_size_16 * 256) o
      → let c = (claim p (record f { heap = heap }) o).0 in
        let f' = (claim p (record f { heap = heap }) o).1 in
        ((2 ≤ c)
          × (c < f.fat_info.fat_size_16 * 256)
          × (entry c f ≡ 0)
          × ((d : ℕ) → d < c → 2 ≤ d → entry d f ≢ 0)
          × ((d : ℕ) → d < 2 ^ 16 → entry d f' ≡ (if c == d then 65535 else entry d f)))
        ⊎ ((c ≡ 0)
            × (f'.drive ≡ f.drive)
            × ((d : ℕ) → d < f.fat_info.fat_size_16 * 256 → 2 ≤ d → entry d f ≢ 0))
  claimed p heap f none small on s = inr (refl, refl, λ d less two. s d (omega arith) less two)
  claimed p heap f (some c) small on s = inl (
    s.2,
    s.1,
    s.3,
    λ d less two. s.4 d (omega arith) less two,
    λ d less.
        entry-fat_write_fat_entry c d 65535 (record f { heap = heap }) (omega (arith, s.1)) less
          (omega arith) (record { low = on.low; ready = on.ready }),
  )

  -- On a drive that answers, with the table in front of sector 2^16 + 256 and of at most 256
  -- sectors, fat_allocate_cluster returns the first entry from 2 on that is 0 and marks it, and it
  -- alone, as the end of a chain; or no entry is 0, it returns 0, and the drive is as it was.
  pub fat_allocate_cluster_outcome :
      (f : Fat A)
      → f.fat_info.fat_size_16 ≤ 256
      → Mounted f
      → let c = (fat_allocate_cluster f).0 in
        let f' = (fat_allocate_cluster f).1 in
        ((2 ≤ c)
          × (c < f.fat_info.fat_size_16 * 256)
          × (entry c f ≡ 0)
          × ((d : ℕ) → d < c → 2 ≤ d → entry d f ≢ 0)
          × ((d : ℕ) → d < 2 ^ 16 → entry d f' ≡ (if c == d then 65535 else entry d f)))
        ⊎ ((c ≡ 0)
            × (f'.drive ≡ f.drive)
            × ((d : ℕ) → d < f.fat_info.fat_size_16 * 256 → 2 ≤ d → entry d f ≢ 0))
  unfolding fat_allocate_cluster
  fat_allocate_cluster_outcome f small on =
      let (p, f') = new_buffer f in
      let range : (0 + f.fat_info.fat_size_16) * 256 ≡ f.fat_info.fat_size_16 * 256 = omega arith in
      let searched =
        search_fat-Searched f.fat_info.fat_size_16 0 (A.bytes p f'.heap) f' (omega arith)
          (record { low = on.low; ready = on.ready }) in
      claimed p f'.heap f (search_fat f.fat_info.fat_size_16 0 (A.bytes p f'.heap) f') small on (
        subst
          (λ n.
            Searched (λ c. entry c f) 0 n
              (search_fat f.fat_info.fat_size_16 0 (A.bytes p f'.heap) f'))
          range searched)
