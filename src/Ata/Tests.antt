-- ===== src/Ata/Tests.antt =====
-- The theorems about the ports of src/drivers/ata.c at a drive that is busy for three reads of its status, and
-- ignores what is written to its other registers then.
use os_eojin.Base.{
  ℕ, zero, suc, ◌+◌, ◌%◌, ◌^◌, ◌≡◌, refl, Bool, true, false, ◌==◌, ◌||◌, if◌then◌else◌, ap, ◌∙◌,
  sym,
}
use os_eojin.Ata.{addressed}
use os_eojin.Ata
use os_eojin.Ata.Port.{Device, err, df, drq, bsy}
use os_eojin.Ata.Drives.{Phase, idle, sending, receiving, View, offers, with_word, IsAta, IsQuiet}
use os_eojin.Ata.Transfer.{either_same}

abbrev status : (busy : ℕ) → (has_data : Bool) → ℕ
status zero true = 0x48
status zero false = 0x40
status (suc n) has_data = 0x80

abbrev less_busy : ℕ → ℕ
less_busy zero = 0
less_busy (suc n) = n

abbrev with_busy : View → ℕ → View
with_busy v n = record v { busy = n }

abbrev next_word : View → Phase → ℕ
next_word v idle = 0
next_word v (sending i) = v.words (addressed v.registers) i % 2 ^ 16
next_word v (receiving i) = 0

abbrev sent : Phase → Phase
sent idle = idle
sent (sending i) = sending (i + 1)
sent (receiving i) = receiving i

abbrev take_word : ℕ → View → Phase → View
take_word w v idle = v
take_word w v (sending i) = v
take_word w v (receiving i) = record v {
  phase = receiving (i + 1);
  words = with_word (addressed v.registers) i w v.words;
}

abbrev after_command : ℕ → View → View
after_command c v =
    if c == 0x20
    then record v { phase = sending 0; busy = 3 }
    else if c == 0x30
    then record v { phase = receiving 0; busy = 3 }
    else record v { phase = idle; busy = 3 }

abbrev write_port : ℕ → ℕ → View → View
write_port port b v =
    let r = v.registers in
    if port == 0x1f7
    then after_command b v
    else if port == 0x1f6
    then record v { registers = record r { drive_head = b } }
    else if port == 0x1f5
    then record v { registers = record r { lba_high = b } }
    else if port == 0x1f4
    then record v { registers = record r { lba_mid = b } }
    else if port == 0x1f3
    then record v { registers = record r { lba_low = b } }
    else if port == 0x1f2
    then record v { sector_cnt = b }
    else v

abbrev disk : Device
disk = record {
  State = View;
  inb = λ port v. (status v.busy (offers v.phase), record v { busy = less_busy v.busy });
  inw = λ port v. (next_word v v.phase, record v { phase = sent v.phase });
  outb = λ port b v. if (port == 0x3f6) || (v.busy == 0) then write_port port b v else v;
  outw = λ port w v. take_word w v v.phase;
}

ready_status :
    (has_data : Bool)
    → (bsy (status 0 has_data) ≡ false)
      × (err (status 0 has_data) ≡ false)
      × (df (status 0 has_data) ≡ false)
      × (drq (status 0 has_data) ≡ has_data)
ready_status true = (refl, refl, refl, refl)
ready_status false = (refl, refl, refl, refl)

settled_view : (v : View) → v.busy ≡ 0 → record v { busy = less_busy v.busy } ≡ v
settled_view v e = ap (with_busy v) (ap less_busy e ∙ sym e)

abbrev disk_drive : IsAta disk 3 0
disk_drive = record {
  view = λ v. v;
  control = λ b v. refl;
  drive_head = λ b v ok. rw (ok.0) refl;
  sector_cnt = λ b v ok. rw (ok.0) refl;
  lba_low = λ b v ok. rw (ok.0) refl;
  lba_mid = λ b v ok. rw (ok.0) refl;
  lba_high = λ b v ok. rw (ok.0) refl;
  read_command = λ v ok. rw (ok.0) refl;
  write_command = λ v ok. rw (ok.0) refl;
  flush_command = λ v ok. rw (ok.0) refl;
  status_busy = λ n v e. rw e (refl, refl);
  status_ready = λ v e.
      let (b, c, d, f) = ready_status (offers v.phase) in
      (rw e b, rw e c, rw e d, rw e f, settled_view v e);
  data_in = λ i v e p one less. rw p (refl, refl);
  data_out = λ i w v e p one less.
      rw p (ap (with_busy (take_word w v (receiving i))) (e ∙ sym (either_same i 0)));
}

abbrev disk_quiet : IsQuiet disk 3 0 disk_drive
disk_quiet = record { bits = λ n v e. rw e (refl, refl, refl) }

abbrev start : View
start = record {
  words = λ l i. l + i;
  registers = record { drive_head = 0; lba_low = 0; lba_mid = 0; lba_high = 0 };
  sector_cnt = 0;
  phase = idle;
  busy = 1;
}
