-- ===== src/Ata/Port.antt =====
-- src/drivers/ata.c as it drives the ports. What stands behind the ports is a parameter.
use os_eojin.Base.{
  ℕ, zero, suc, ◌+◌, ◌*◌, ◌/◌, ◌%◌, ◌^◌, Bool, true, false, not, List, [], ◌∷◌, ◌++◌, codes, Option,
  none, some, ◌==◌, if◌then◌else◌,
}
use os_eojin.Ata.{select}

pub record Device : Type 1 where
  pub State : Type 0
  pub inb : ℕ → State → ℕ × State
  pub inw : ℕ → State → ℕ × State
  pub outb : ℕ → ℕ → State → State
  pub outw : ℕ → ℕ → State → State

abbrev pub data_port : ℕ
data_port = 0x1f0

abbrev pub status_port : ℕ
status_port = 0x1f7

-- One bit of a status byte.
abbrev pub err : ℕ → Bool
err status = not (status % 2 == 0)

abbrev pub df : ℕ → Bool
df status = not (status / 32 % 2 == 0)

abbrev pub drq : ℕ → Bool
drq status = not (status / 8 % 2 == 0)

abbrev pub bsy : ℕ → Bool
bsy status = not (status / 128 % 2 == 0)

-- `buffer[i * 2] = (uint8_t)data; buffer[i * 2 + 1] = (uint8_t)(data >> 8);`
abbrev pub put_bytes : ℕ → ℕ → (ℕ → ℕ) → ℕ → ℕ
put_bytes i data' buffer k =
    if i * 2 + 1 == k then data' / 2 ^ 8 % 2 ^ 8 else if i * 2 == k then data' % 2 ^ 8 else buffer k

abbrev pub drq_limit : ℕ
drq_limit = 100000

-- How `ata_wait_drq` ends: its result, the message, and the device.
abbrev pub Waited : Type 0 → Type 0
Waited S = Bool × List (List ℕ) × S

module _ (D : Device) where
  unfoldable pub ata_disable_irq : D.State → D.State
  ata_disable_irq s = D.outb 0x3f6 0x02 s

  -- The bytes that it reads are not used.
  pub ata_io_wait : D.State → D.State
  ata_io_wait s =
      let read : D.State → D.State = λ s. (D.inb status_port s).1 in read (read (read (read s)))

  -- `none` without fuel left.
  unfoldable pub ata_wait_bsy : (fuel : ℕ) → D.State → Option D.State
  ata_wait_bsy zero s = none
  ata_wait_bsy (suc fuel) s =
      let (status, s') = D.inb status_port s in
      let rest = ata_wait_bsy fuel s' in if bsy status then rest else some s'

  -- The loop of `ata_wait_drq`, `limit` rounds.
  unfoldable pub wait_drq : (limit : ℕ) → D.State → Waited D.State
  wait_drq zero s = (false, [], s)
  wait_drq (suc limit) s =
      let (status, s') = D.inb status_port s in
      let rest = wait_drq limit s' in
      if err status
      then (false, codes "ATA Error: ERR bit set!\n" ∷ [], s')
      else if df status
      then (false, codes "ATA Error: Drive Fault!\n" ∷ [], s')
      else if drq status
      then (true, [], s')
      else rest

  -- The registers that both operations write.
  unfoldable pub select_sector : (lba : ℕ) → D.State → D.State
  select_sector lba s =
      let r = select lba in
      D.outb 0x1f5 r.lba_high (
        D.outb 0x1f4 r.lba_mid
          (D.outb 0x1f3 r.lba_low (D.outb 0x1f2 1 (D.outb 0x1f6 r.drive_head s))))

  -- The loop over the words from `i` on.
  unfoldable pub read_words : (rounds i : ℕ) → (ℕ → ℕ) → D.State → (ℕ → ℕ) × D.State
  read_words zero i buffer s = (buffer, s)
  read_words (suc rounds) i buffer s =
      let (word, s') = D.inw data_port s in read_words rounds (i + 1) (put_bytes i word buffer) s'

  unfoldable pub write_words : (rounds i : ℕ) → (ℕ → ℕ) → D.State → D.State
  write_words zero i bytes s = s
  write_words (suc rounds) i bytes s =
      write_words rounds (i + 1) bytes
        (D.outw data_port (bytes (i * 2) % 2 ^ 8 + 2 ^ 8 * (bytes (i * 2 + 1) % 2 ^ 8)) s)

  abbrev pub transfer_in : (ℕ → ℕ) → Waited D.State → (ℕ → ℕ) × List (List ℕ) × D.State
  transfer_in buffer (false, messages, s) =
      (buffer, messages ++ (codes "ATA Error: DRQ Timeout\n" ∷ []), s)
  transfer_in buffer (true, messages, s) =
      let (buffer', s') = read_words 256 0 buffer s in (buffer', messages, s')

  abbrev pub read_from : ℕ → (ℕ → ℕ) → Option D.State → Option ((ℕ → ℕ) × List (List ℕ) × D.State)
  read_from lba buffer none = none
  read_from lba buffer (some s) =
      some (transfer_in buffer (wait_drq drq_limit (D.outb status_port 0x20 (select_sector lba s))))

  -- The buffer and the messages.
  unfoldable pub ata_read_sector :
      (fuel lba : ℕ) → (ℕ → ℕ) → D.State → Option ((ℕ → ℕ) × List (List ℕ) × D.State)
  ata_read_sector fuel lba buffer s = read_from lba buffer (ata_wait_bsy fuel (ata_disable_irq s))

  abbrev pub flushed : List (List ℕ) → Option D.State → Option (List (List ℕ) × D.State)
  flushed messages none = none
  flushed messages (some s) = some (messages, s)

  -- Whatever `ata_wait_drq` returns.
  abbrev pub transfer_out : (fuel : ℕ) → (ℕ → ℕ) → Waited D.State → Option (List (List ℕ) × D.State)
  transfer_out fuel bytes (waited, messages, s) =
      flushed messages (ata_wait_bsy fuel (D.outb status_port 0xe7 (write_words 256 0 bytes s)))

  abbrev pub write_after : (fuel : ℕ) → (ℕ → ℕ) → Option D.State → Option (List (List ℕ) × D.State)
  write_after fuel bytes none = none
  write_after fuel bytes (some s) = transfer_out fuel bytes (wait_drq drq_limit s)

  abbrev pub write_from :
      (fuel lba : ℕ) → (ℕ → ℕ) → Option D.State → Option (List (List ℕ) × D.State)
  write_from fuel lba bytes none = none
  write_from fuel lba bytes (some s) =
      write_after fuel bytes (ata_wait_bsy fuel (D.outb status_port 0x30 (select_sector lba s)))

  unfoldable pub ata_write_sector :
      (fuel lba : ℕ) → (ℕ → ℕ) → D.State → Option (List (List ℕ) × D.State)
  ata_write_sector fuel lba bytes s =
      write_from fuel lba bytes (ata_wait_bsy fuel (ata_disable_irq s))
