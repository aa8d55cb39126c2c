-- ===== src/Fat/Entry.antt =====
-- The allocation table of src/fs/fat.c as an array of 16-bit entries.
use os_eojin.Base.{
  ℕ, ◌+◌, ◌*◌, ◌/◌, ◌%◌, ◌^◌, ◌<◌, ◌≡◌, true, ◌&&◌, if◌then◌else◌, ◌==◌, arith, ap, ap₂, ◌-◌, ◌∙◌,
  sym, refl, List,
}
use os_eojin.Ata.{Drive, ata_read_sector, ata_write_sector, select, addressed}
use os_eojin.Ata.Sectors.{addressed-select}
use os_eojin.Fat.{
  u32, Allocator, Fat, get16, set16, sector_of, fat_next_cluster, fat_write_fat_entry,
  fat_lba_of_cluster,
}

pub get16-ata_read_sector :
    (lba i : ℕ) (buffer : ℕ → ℕ) (d : Drive)
    → lba < 2 ^ 28
    → i < 256
    → d.ready ≡ true
    → get16 (ata_read_sector lba buffer d) (i * 2) ≡ d.words lba i % 2 ^ 16
unfolding ata_read_sector
get16-ata_read_sector lba i buffer d low small ready =
    let e : addressed (select lba) ≡ lba = addressed-select lba ∙ omega arith in
    let here : i * 2 / 2 ≡ i = omega arith in
    let here' : (i * 2 + 1) / 2 ≡ i = omega arith in rw (e, ready, here, here') (ground arith)

-- A sector written back with one 16-bit number changed.
words-set16 :
    (a l i j v : ℕ) (buffer : ℕ → ℕ) (d : Drive)
    → a < 2 ^ 28
    → l < 2 ^ 28
    → i < 256
    → j < 256
    → v < 2 ^ 16
    → d.ready ≡ true
    → (ata_write_sector a (set16 (i * 2) v (ata_read_sector a buffer d)) d).words l j % 2 ^ 16
      ≡ (if (a == l) && (i == j) then v else d.words l j % 2 ^ 16)
unfolding ata_read_sector ata_write_sector
words-set16 a l i j v buffer d low low' small small' fits ready =
    let e : addressed (select a) ≡ a = addressed-select a ∙ omega arith in
    let here : j * 2 / 2 ≡ j = omega arith in
    let here' : (j * 2 + 1) / 2 ≡ j = omega arith in rw (e, ready, here, here') (ground arith)

module _ {A : Allocator} where
  -- The same volume with another heap and console.
  abbrev pub aside : A.State → List (List ℕ) → Fat A → Fat A
  aside heap console f = record f { heap = heap; console = console }

  pub fat_next_cluster-aside :
      (c : ℕ) (f : Fat A)
      → (fat_next_cluster c f).1 ≡ aside (fat_next_cluster c f).1.heap f.console f
  unfolding fat_next_cluster
  fat_next_cluster-aside c f = refl

  pub fat_lba_of_cluster-aside :
      (c : ℕ) (heap : A.State) (console : List (List ℕ)) (f : Fat A)
      → fat_lba_of_cluster c (aside heap console f) ≡ fat_lba_of_cluster c f
  unfolding fat_lba_of_cluster
  fat_lba_of_cluster-aside c heap console f = refl

  pub fat_lba_of_cluster_cong :
      (c : ℕ) (f g : Fat A)
      → f.fat_info ≡ g.fat_info
      → f.data_start_sector ≡ g.data_start_sector
      → fat_lba_of_cluster c f ≡ fat_lba_of_cluster c g
  unfolding fat_lba_of_cluster
  fat_lba_of_cluster_cong c f g e e' =
      ap₂ (λ info (start : ℕ). u32 (start + u32 (c + 2 ^ 32 - 2) * info.sectors_per_cluster)) e e'

  -- The table lies within the 2 ^ 28 sectors that the drive addresses, and the drive answers.
  pub record Mounted (f : Fat A) : Type 0 where
    pub low : f.fat_start_sector < 2 ^ 16
    pub ready : f.drive.ready ≡ true

  pub Mounted-fat_write_fat_entry :
      (c v : ℕ) (f : Fat A) → Mounted f → Mounted (fat_write_fat_entry c v f)
  unfolding fat_write_fat_entry ata_write_sector
  Mounted-fat_write_fat_entry c v f on = record { low = on.low; ready = on.ready }

  -- The entry of a cluster: a 16-bit word of the table on the drive, 256 of them to a sector.
  abbrev pub entry : ℕ → Fat A → ℕ
  entry c f = f.drive.words (f.fat_start_sector + c / 256) (c % 256) % 2 ^ 16

  pub fat_next_cluster-entry :
      (c : ℕ) (f : Fat A) → c < 2 ^ 16 → Mounted f → (fat_next_cluster c f).0 ≡ entry c f
  unfolding fat_next_cluster
  fat_next_cluster-entry c f small on =
      let lba : sector_of c f ≡ f.fat_start_sector + c / 256 = omega (arith, on.low) in
      let place : c * 2 % 512 ≡ c % 256 * 2 = omega arith in
      rw (lba, place)
        (get16-ata_read_sector _ (c % 256) _ f.drive (omega (arith, on.low)) (omega arith) on.ready)

  -- A write changes its entry alone.
  pub entry-fat_write_fat_entry :
      (c d v : ℕ) (f : Fat A)
      → c < 2 ^ 16
      → d < 2 ^ 16
      → v < 2 ^ 16
      → Mounted f
      → entry d (fat_write_fat_entry c v f) ≡ (if c == d then v else entry d f)
  unfolding fat_write_fat_entry
  entry-fat_write_fat_entry c d v f small small' fits on =
      let lba : sector_of c f ≡ f.fat_start_sector + c / 256 = omega (arith, on.low) in
      let place : c * 2 % 512 ≡ c % 256 * 2 = omega arith in
      let same : (f.fat_start_sector + c / 256 == f.fat_start_sector + d / 256)
            && (c % 256 == d % 256)
          ≡ (c == d) =
        ground arith in
      rw (lba, place)
        (words-set16 _ (f.fat_start_sector + d / 256) (c % 256) (d % 256) v _ f.drive
            (omega (arith, on.low)) (omega (arith, on.low)) (omega arith) (omega arith) fits
            on.ready
          ∙ ap (λ b. if b then v else entry d f) same)

  -- On a drive that answers, with the table in its first sectors: what is read back from the table
  -- is what was written, for the entry that was written, and what was read before for every other
  -- entry.
  pub fat_next_cluster-fat_write_fat_entry :
      (c d v : ℕ) (f : Fat A)
      → c < 2 ^ 16
      → d < 2 ^ 16
      → v < 2 ^ 16
      → Mounted f
      → (fat_next_cluster d (fat_write_fat_entry c v f)).0
        ≡ (if c == d then v else (fat_next_cluster d f).0)
  fat_next_cluster-fat_write_fat_entry c d v f small small' fits on =
      fat_next_cluster-entry d _ small' (Mounted-fat_write_fat_entry c v f on)
      ∙ entry-fat_write_fat_entry c d v f small small' fits on
      ∙ ap (λ n. if c == d then v else n) (sym (fat_next_cluster-entry d f small' on))
