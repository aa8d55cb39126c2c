-- ===== src/Fat/First.antt =====
-- The first sector of a subdirectory, as the loops of src/fs/fat.c read it.
use os_eojin.Base.{
  ℕ, suc, ◌+◌, ◌/◌, ◌%◌, ◌^◌, ◌<◌, ◌≡◌, ◌≢◌, refl, false, leb, ltb, if◌then◌else◌, arith, ◌∙◌,
  Option, some, ==_ne, fun_ext, true,
}
use native.Mathlib.Nat.{zero-mod, zero-div}
use os_eojin.Ata.{Drive, ata_read_sector, ata_write_sector, select, addressed}
use os_eojin.Ata.Sectors.{addressed-select}
use os_eojin.Fat.{Allocator, Fat, u32, read_sector, follow, fat_lba_of_cluster, fat_read_dir_sector}
use os_eojin.Fat.Dir.{walk}

-- All the bytes of a buffer, once a sector that was written is read into it.
pub ata_read_sector-written :
    (a : ℕ) (bytes buffer : ℕ → ℕ) (d : Drive)
    → a < 2 ^ 28
    → d.ready ≡ true
    → ata_read_sector a buffer (ata_write_sector a bytes d)
      ≡ (λ k. if ltb k 512 then bytes k % 2 ^ 8 else buffer k)
unfolding ata_read_sector ata_write_sector
ata_read_sector-written a bytes buffer d low ready =
    let e : addressed (select a) ≡ a = addressed-select a ∙ omega arith in
    fun_ext (λ k. rw (e, ready) (ground arith))

module _ {A : Allocator} where
  fat_read_dir_sector-first :
      (c : ℕ) (buffer : ℕ → ℕ) (f : Fat A)
      → c ≢ 0
      → c < 65528
      → fat_lba_of_cluster c f < 2 ^ 32
      → fat_read_dir_sector c 0 buffer f ≡ (some (read_sector (fat_lba_of_cluster c f) buffer f), f)
  unfolding fat_read_dir_sector follow
  fat_read_dir_sector-first c buffer f ne low fits =
      let spc = f.fat_info.sectors_per_cluster in
      let open' : leb 65528 c ≡ false = ground arith in
      let first : 0 / spc ≡ 0 = zero-div spc in
      let first' : 0 % spc ≡ 0 = zero-mod spc in
      let there : u32 (fat_lba_of_cluster c f + 0) ≡ fat_lba_of_cluster c f = omega (arith, fits) in
      rw (==_ne c 0 ne, first, first', open', there) refl

  -- A loop that the first sector decides.
  pub walk-first {ℓ} :
      {X : Type ℓ} (scan : (ℕ → ℕ) → Option X) (x : X) (fuel c : ℕ) (buffer : ℕ → ℕ) (f : Fat A)
      → c ≢ 0
      → c < 65528
      → fat_lba_of_cluster c f < 2 ^ 32
      → scan (read_sector (fat_lba_of_cluster c f) buffer f) ≡ some x
      → walk scan (suc fuel) c 0 buffer f
        ≡ some (some (x, 0, read_sector (fat_lba_of_cluster c f) buffer f), f)
  unfolding walk
  walk-first scan x fuel c buffer f ne low fits decides =
      rw (fat_read_dir_sector-first c buffer f ne low fits, decides) refl
