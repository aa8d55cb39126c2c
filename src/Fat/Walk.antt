-- ===== src/Fat/Walk.antt =====
-- The root directory of src/fs/fat.c: every loop over its sectors ends, at the first that decides.
use os_eojin.Base.{
  ℕ, zero, suc, ◌+◌, ◌*◌, ◌/◌, ◌<◌, ◌≤◌, ◌≡◌, ◌≢◌, refl, Bool, true, false, not, leb, ◌==◌,
  if◌then◌else◌, List, arith, ap, ◌∙◌, ==_ne, sym, subst, Bool-cases, inl, inr, Option, none, some,
  Option-cases, fun_ext, ==_iff,
}
use os_eojin.Ata.{Drive, ata_read_sector}
use os_eojin.Fat.{Allocator, Fat, u32, read_sector, fat_read_dir_sector, new_buffer}
use os_eojin.Fat.Dir.{walk, find_entry, found_entry, fat_find_file, after}

-- A sector read over another one.
ata_read_sector_over :
    (a b : ℕ) (buffer : ℕ → ℕ) (d : Drive)
    → ata_read_sector a (ata_read_sector b buffer d) d
      ≡ (if d.ready then ata_read_sector a buffer d else buffer)
unfolding ata_read_sector
ata_read_sector_over a b buffer d = fun_ext λ k. ground arith

pub past_guards {ℓ} :
    {X : Type ℓ} (x y z : X) (mounted null : Bool)
    → mounted ≡ true
    → null ≡ false
    → (if not mounted then x else if null then y else z) ≡ z
past_guards x y z mounted null e e' = rw (e, e') refl

pub past_guard {ℓ} :
    {X : Type ℓ} (x y : X) (mounted : Bool) → mounted ≡ true → (if not mounted then x else y) ≡ y
past_guard x y mounted e = rw e refl

module _ {A : Allocator} where
  abbrev pub root_sectors : Fat A → ℕ
  root_sectors f = f.fat_info.root_dir_entries * 32 / f.fat_info.bytes_per_sector

  abbrev pub root_sector : ℕ → (ℕ → ℕ) → Fat A → ℕ → ℕ
  root_sector i buffer f = read_sector (u32 (f.root_dir_sector + i)) buffer f

  -- How a loop over the root directory's sectors `i .. n - 1` ends: at the first sector that decides.
  abbrev pub Decided {ℓ} :
      {X : Type ℓ}
      → ((ℕ → ℕ) → Option X)
      → ℕ
      → ℕ
      → (ℕ → ℕ)
      → Fat A
      → Option (X × ℕ × (ℕ → ℕ))
      → Type ℓ
  Decided scan i n buffer f none = (j : ℕ) → i ≤ j → j < n → scan (root_sector j buffer f) ≡ none
  Decided scan i n buffer f (some (x, j, bytes)) =
      (i ≤ j)
      × (j < n)
      × (bytes ≡ root_sector j buffer f)
      × (scan bytes ≡ some x)
      × ((d : ℕ) → i ≤ d → d < j → scan (root_sector d buffer f) ≡ none)

  root_sector_over :
      (j i : ℕ) (buffer : ℕ → ℕ) (f : Fat A)
      → f.drive.ready ≡ true
      → root_sector j (root_sector i buffer f) f ≡ root_sector j buffer f
  root_sector_over j i buffer f ready = ata_read_sector_over _ _ buffer f.drive ∙ rw ready refl

  -- A sector that decides nothing, before the others.
  Decided-before {ℓ} :
      {X : Type ℓ} (scan : (ℕ → ℕ) → Option X) (i : ℕ) (buffer : ℕ → ℕ) (f : Fat A)
      (o : Option (X × ℕ × (ℕ → ℕ)))
      → f.drive.ready ≡ true
      → scan (root_sector i buffer f) ≡ none
      → Decided scan (i + 1) (root_sectors f) (root_sector i buffer f) f o
      → Decided scan i (root_sectors f) buffer f o
  Decided-before scan i buffer f none ready here later = λ j lo hi. elim (Bool-cases (i == j)) [
    | inl e ↦ subst (λ k. scan (root_sector k buffer f) ≡ none) ((==_iff i j).0 e) here
    | inr ne ↦ ap scan (sym (root_sector_over j i buffer f ready)) ∙ later j (ground arith) hi
  ]
  Decided-before scan i buffer f (some (x, k, bytes)) ready here later = (
    omega (arith, later.0),
    later.1,
    later.2 ∙ root_sector_over k i buffer f ready,
    later.3,
    λ j lo hi. elim (Bool-cases (i == j)) [
      | inl e ↦ subst (λ k'. scan (root_sector k' buffer f) ≡ none) ((==_iff i j).0 e) here
      | inr ne ↦ ap scan (sym (root_sector_over j i buffer f ready)) ∙ later.4 j (ground arith) hi
    ],
  )

  pub walk-Decided {ℓ} :
      {X : Type ℓ} (scan : (ℕ → ℕ) → Option X) (fuel i : ℕ) (buffer : ℕ → ℕ) (f : Fat A)
      → f.drive.ready ≡ true
      → i ≤ root_sectors f
      → root_sectors f < i + fuel
      → (o : Option (X × ℕ × (ℕ → ℕ))) × (walk scan fuel 0 i buffer f ≡ some (o, f))
        × Decided scan i (root_sectors f) buffer f o
  unfolding walk fat_read_dir_sector
  walk-Decided scan zero i buffer f ready inside' enough = absurd (omega arith)
  walk-Decided scan (suc fuel) i buffer f ready inside' enough =
      elim (Bool-cases (leb (root_sectors f) i)) [
        | inl past ↦ (none, rw past refl, λ j lo hi. absurd (ground arith))
        | inr inside ↦
            let bytes = root_sector i buffer f in
            let (o, ends, decided) =
              walk-Decided scan fuel (i + 1) bytes f ready (ground arith) (omega arith) in
            elim (Option-cases (scan bytes)) [
              | inl none' ↦
                  (o, rw (inside, none') ends, Decided-before scan i buffer f o ready none' decided)
              | inr here ↦ (
                some (here.0, i, bytes),
                rw (inside, here.1) refl,
                (omega arith, ground arith, refl, here.1, λ d lo hi. absurd (omega arith)),
              )
            ]
      ]

  -- On a mounted volume with a drive that answers and a buffer that is not null, in the root
  -- directory, with fuel for its sectors and one more, fat_find_file ends with what the first
  -- deciding sector gives: a sector decides by an entry that matches or by the end mark. Where
  -- none decides the file is not found.
  pub fat_find_file-root :
      (fuel : ℕ) (filename : List ℕ) (f : Fat A)
      → f.is_fat_initialized ≡ true
      → f.current_dir_cluster ≡ 0
      → f.drive.ready ≡ true
      → (A.kmalloc 512 f.heap).0 ≢ 0
      → root_sectors f < fuel
      → let (p, f') = new_buffer f in
        let buffer = A.bytes p f'.heap in
        (o : Option (Option ℕ × ℕ × (ℕ → ℕ))) × (fat_find_file fuel filename f
          ≡ some (found_entry p (o, f')))
        × Decided (find_entry 16 0 filename) 0 (root_sectors f) buffer f o
  unfolding fat_find_file
  fat_find_file-root fuel filename f mounted root ready got enough =
      let (p, f') = new_buffer f in
      let (o, ends, decided) =
        walk-Decided (find_entry 16 0 filename) fuel 0 (A.bytes p f'.heap) f' ready (omega arith)
          (omega arith) in
      (
        o,
        past_guards _ _ _ f.is_fat_initialized (p == 0) mounted (==_ne p 0 got)
            ∙ ap
                (λ c.
                  after (found_entry p)
                    (walk (find_entry 16 0 filename) fuel c 0 (A.bytes p f'.heap) f'))
                root
            ∙ ap (after (found_entry p)) ends,
        decided,
      )
