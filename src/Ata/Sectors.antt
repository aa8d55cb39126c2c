-- ===== src/Ata/Sectors.antt =====
-- What the sectors of src/drivers/ata.c hold after a write.
use os_eojin.Base.{ℕ, ◌%◌, ◌^◌, ◌<◌, ◌≡◌, true, if◌then◌else◌, ◌==◌, arith, ◌∙◌}
use os_eojin.Ata.{Drive, select, addressed, ata_read_sector, ata_write_sector}

-- The registers address the sector's number modulo 2 ^ 28.
pub addressed-select : (lba : ℕ) → addressed (select lba) ≡ lba % 2 ^ 28
unfolding addressed select
addressed-select lba = omega arith

-- A sector that is written reads as what was written; every other sector reads as before.
pub ata_read_sector-ata_write_sector :
    (a b : ℕ) (bytes buffer : ℕ → ℕ) (d : Drive) (k : ℕ)
    → a < 2 ^ 28
    → b < 2 ^ 28
    → k < 512
    → d.ready ≡ true
    → ata_read_sector b buffer (ata_write_sector a bytes d) k
      ≡ (if a == b then bytes k % 2 ^ 8 else ata_read_sector b buffer d k)
unfolding ata_read_sector ata_write_sector
ata_read_sector-ata_write_sector a b bytes buffer d k low low' small ready =
    let ea : addressed (select a) ≡ a = addressed-select a ∙ omega arith in
    let eb : addressed (select b) ≡ b = addressed-select b ∙ omega arith in
    rw (ea, eb, ready) (ground arith)
