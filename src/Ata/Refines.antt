-- ===== src/Ata/Refines.antt =====
-- The operations of src/drivers/ata.c at its ports do what `Ata` says of a drive.
use os_eojin.Base.{ℕ}
use os_eojin.Ata.{Drive, select, addressed}
use os_eojin.Ata
use os_eojin.Ata.Port.{Device}
use os_eojin.Ata.Drives.{Phase, View, IsAta}

module _ (D : Device) (latency settling : ℕ) (A : IsAta D latency settling) where
  abbrev commanded : ℕ → Phase → View → View
  commanded lba p v = record v { registers = select lba; sector_cnt = 1; phase = p; busy = latency }

  abbrev command : Phase → View → View
  command p v = record v { phase = p; busy = latency }

  abbrev selected : ℕ → View → View
  selected lba v = record v { registers = select lba; sector_cnt = 1 }
