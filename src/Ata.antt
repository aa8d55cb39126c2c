-- ===== src/Ata.antt =====
-- src/drivers/ata.c: one sector read or written by LBA, in 16-bit words. The drive is not part of the
-- repository: its sectors and whether it answers with DRQ before the limit are state.
pub mod Sectors
pub mod Port
pub mod Drives
pub mod Transfer
pub mod Refines
mod Tests
use os_eojin.Base.{
  ℕ, zero, suc, ◌+◌, ◌-◌, ◌*◌, ◌/◌, ◌%◌, ◌^◌, Bool, true, false, List, [], ◌∷◌, ◌++◌, ltb, leb, not,
  ◌&&◌, if◌then◌else◌, ◌==◌, codes, bit_and, bit_or,
}

pub record Drive : Type 0 where
  -- `words lba i`
  pub words : ℕ → ℕ → ℕ
  pub ready : Bool

-- The registers that select a sector, as `ata_read_sector` and `ata_write_sector` write them.
pub record Registers : Type 0 where
  pub drive_head : ℕ
  pub lba_low : ℕ
  pub lba_mid : ℕ
  pub lba_high : ℕ

unfoldable pub select : ℕ → Registers
select lba = record {
  drive_head = 224 + lba / 2 ^ 24 % 16;
  lba_low = lba % 2 ^ 8;
  lba_mid = lba / 2 ^ 8 % 2 ^ 8;
  lba_high = lba / 2 ^ 16 % 2 ^ 8;
}

-- The sector that these registers address: 28 bits.
unfoldable pub addressed : Registers → ℕ
addressed r = r.lba_low + 2 ^ 8 * r.lba_mid + 2 ^ 16 * r.lba_high + 2 ^ 24 * (r.drive_head % 16)

-- What `ata_read_sector` makes of a buffer: for each word two bytes, or no change on a timeout.
unfoldable pub ata_read_sector : ℕ → (ℕ → ℕ) → Drive → ℕ → ℕ
ata_read_sector lba buffer d k =
    let word = d.words (addressed (select lba)) (k / 2) in
    let byte = if k % 2 == 0 then word % 2 ^ 8 else word / 2 ^ 8 % 2 ^ 8 in
    if d.ready && ltb k 512 then byte else buffer k

-- The words of `ata_write_sector`, which does not look at what `ata_wait_drq` returns.
unfoldable pub ata_write_sector : ℕ → (ℕ → ℕ) → Drive → Drive
ata_write_sector lba bytes d = record d {
  words = λ l i.
      if addressed (select lba) == l && ltb i 256
      then bytes (i * 2) % 2 ^ 8 + 2 ^ 8 * (bytes (i * 2 + 1) % 2 ^ 8)
      else d.words l i;
}
