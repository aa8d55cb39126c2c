-- ===== src/Ata/Drives.antt =====
-- What src/drivers/ata.c relies on of the drive behind the ports, by the ATA standard: the registers
-- select a sector, a command makes the drive busy for a while, then it offers or takes 256 words.
use os_eojin.Base.{
  ℕ, suc, ◌+◌, ◌%◌, ◌^◌, ◌<◌, ◌≡◌, Bool, true, false, ltb, ◌==◌, ◌&&◌, if◌then◌else◌,
}
use os_eojin.Ata.{Registers, addressed}
use os_eojin.Ata.Port.{Device, data_port, status_port, err, df, drq, bsy}

pub data Phase : Type 0 where
  idle : Phase
  -- the word that comes next
  sending receiving : ℕ → Phase

-- What the drive is in, as far as the driver depends on it.
pub record View : Type 0 where
  pub words : ℕ → ℕ → ℕ
  pub registers : Registers
  pub sector_cnt : ℕ
  pub phase : Phase
  -- reads of the status register until the drive is no longer busy
  pub busy : ℕ

abbrev pub offers : Phase → Bool
offers idle = false
offers (sending i) = ltb i 256
offers (receiving i) = ltb i 256

-- The words with one of them written.
abbrev pub with_word : (lba i word : ℕ) → (ℕ → ℕ → ℕ) → ℕ → ℕ → ℕ
with_word lba i word words l j = if (lba == l) && (i == j) then word else words l j

-- Registers and commands may be written.
abbrev pub Accepts : View → Type 0
Accepts v = (v.busy ≡ 0) × (offers v.phase ≡ false)

-- A drive without errors that is busy for `latency` reads of its status after each command, and for
-- `settling` after the last word of a sector that it takes. While it is busy its other status bits say
-- nothing; only the control register may be written then.
pub record IsAta (D : Device) (latency settling : ℕ) : Type 0 where
  pub view : D.State → View
  pub control : (v : ℕ) (s : D.State) → view (D.outb 0x3f6 v s) ≡ view s
  pub drive_head :
      (v : ℕ) (s : D.State)
      → Accepts (view s)
      → view (D.outb 0x1f6 v s)
        ≡ record (view s) { registers = record ((view s).registers) { drive_head = v } }
  pub sector_cnt :
      (v : ℕ) (s : D.State)
      → Accepts (view s)
      → view (D.outb 0x1f2 v s) ≡ record (view s) { sector_cnt = v }
  pub lba_low :
      (v : ℕ) (s : D.State)
      → Accepts (view s)
      → view (D.outb 0x1f3 v s)
        ≡ record (view s) { registers = record ((view s).registers) { lba_low = v } }
  pub lba_mid :
      (v : ℕ) (s : D.State)
      → Accepts (view s)
      → view (D.outb 0x1f4 v s)
        ≡ record (view s) { registers = record ((view s).registers) { lba_mid = v } }
  pub lba_high :
      (v : ℕ) (s : D.State)
      → Accepts (view s)
      → view (D.outb 0x1f5 v s)
        ≡ record (view s) { registers = record ((view s).registers) { lba_high = v } }
  pub read_command :
      (s : D.State)
      → Accepts (view s)
      → view (D.outb status_port 0x20 s) ≡ record (view s) { phase = sending 0; busy = latency }
  pub write_command :
      (s : D.State)
      → Accepts (view s)
      → view (D.outb status_port 0x30 s) ≡ record (view s) { phase = receiving 0; busy = latency }
  pub flush_command :
      (s : D.State)
      → Accepts (view s)
      → view (D.outb status_port 0xe7 s) ≡ record (view s) { phase = idle; busy = latency }
  pub status_busy :
      (n : ℕ) (s : D.State)
      → (view s).busy ≡ suc n
      → (bsy (D.inb status_port s).0 ≡ true)
        × (view (D.inb status_port s).1 ≡ record (view s) { busy = n })
  pub status_ready :
      (s : D.State)
      → (view s).busy ≡ 0
      → (bsy (D.inb status_port s).0 ≡ false)
        × (err (D.inb status_port s).0 ≡ false)
        × (df (D.inb status_port s).0 ≡ false)
        × (drq (D.inb status_port s).0 ≡ offers (view s).phase)
        × (view (D.inb status_port s).1 ≡ view s)
  pub data_in :
      (i : ℕ) (s : D.State)
      → (view s).busy ≡ 0
      → (view s).phase ≡ sending i
      → (view s).sector_cnt ≡ 1
      → i < 256
      → ((D.inw data_port s).0 ≡ (view s).words (addressed (view s).registers) i % 2 ^ 16)
        × (view (D.inw data_port s).1 ≡ record (view s) { phase = sending (i + 1) })
  pub data_out :
      (i w : ℕ) (s : D.State)
      → (view s).busy ≡ 0
      → (view s).phase ≡ receiving i
      → (view s).sector_cnt ≡ 1
      → i < 256
      → view (D.outw data_port w s) ≡ record (view s) {
        phase = receiving (i + 1);
        words = with_word (addressed (view s).registers) i w (view s).words;
        busy = if i == 255 then settling else 0;
      }

-- While the drive is busy, the other bits that the driver looks at are 0. The standard does not promise
-- this.
pub record IsQuiet (D : Device) (latency settling : ℕ) (A : IsAta D latency settling) : Type 0 where
  pub bits :
      (n : ℕ) (s : D.State)
      → (A.view s).busy ≡ suc n
      → (err (D.inb status_port s).0 ≡ false)
        × (df (D.inb status_port s).0 ≡ false)
        × (drq (D.inb status_port s).0 ≡ false)
