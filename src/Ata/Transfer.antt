-- ===== src/Ata/Transfer.antt =====
-- src/drivers/ata.c at its ports does what `Ata` says of it.
use os_eojin.Base.{
  ℕ, zero, suc, ◌+◌, ◌*◌, ◌/◌, ◌%◌, ◌^◌, ◌<◌, ◌≤◌, ◌≡◌, refl, Bool, true, false, ltb, leb, ◌==◌,
  ◌&&◌, ◌||◌, if◌then◌else◌, [], some, arith, ◌∙◌, ap, Bool-cases, inl, inr, ==_iff,
}
use os_eojin.Ata.{Drive, select, addressed}
use os_eojin.Ata.Port.{
  Device, data_port, status_port, put_bytes, ata_wait_bsy, wait_drq, select_sector, read_words,
  write_words,
}
use os_eojin.Ata.Drives.{
  Phase, sending, receiving, View, offers, with_word, Accepts, IsAta, IsQuiet,
}

-- The drive as `Ata` has it.
abbrev pub drive_of : View → Bool → Drive
drive_of v ready = record { words = v.words; ready = ready }

abbrev pub settled : ℕ → View → View
settled n v = record v { busy = n }

abbrev set_count : ℕ → View → View
set_count n v = record v { sector_cnt = n }

abbrev set_low : ℕ → View → View
set_low n v = record v { registers = record (v.registers) { lba_low = n } }

abbrev set_mid : ℕ → View → View
set_mid n v = record v { registers = record (v.registers) { lba_mid = n } }

abbrev set_high : ℕ → View → View
set_high n v = record v { registers = record (v.registers) { lba_high = n } }

abbrev pub set_phase : Phase → View → View
set_phase p v = record v { phase = p }

-- A buffer with the words from `i` on in their places.
abbrev pub merged : (i : ℕ) → (ℕ → ℕ) → (ℕ → ℕ) → ℕ → ℕ
merged i word buffer k =
    if ltb k (i * 2) || leb 512 k
    then buffer k
    else if k % 2 == 0
    then word (k / 2) % 2 ^ 8
    else word (k / 2) / 2 ^ 8 % 2 ^ 8

merged-put_bytes :
    (i word : ℕ) (words : ℕ → ℕ) (buffer : ℕ → ℕ) (k : ℕ)
    → i < 256
    → word ≡ words i % 2 ^ 16
    → merged (i + 1) words (put_bytes i word buffer) k ≡ merged i words buffer k
merged-put_bytes i word words buffer k less e = elim (Bool-cases (k / 2 == i)) [
  | inl here ↦
      let same = ap words ((==_iff (k / 2) i).0 here) in ground (arith, less, e, here, same)
  | inr away ↦ ground (arith, less, away)
]

abbrev put_out : (i word : ℕ) → View → View
put_out i word v = record v {
  phase = receiving (i + 1);
  words = with_word (addressed v.registers) i word v.words;
  busy = if i == 255 then 0 else 0;
}

module _ (D : Device) (latency settling : ℕ) (A : IsAta D latency settling) where
  pub ata_wait_bsy_lem :
      (fuel n : ℕ) (s : D.State)
      → (A.view s).busy ≡ n
      → n < fuel
      → (s' : D.State) × (ata_wait_bsy D fuel s ≡ some s')
        × (A.view s' ≡ record (A.view s) { busy = 0 })
  unfolding ata_wait_bsy
  ata_wait_bsy_lem zero n s e less = absurd (omega (arith, less))
  ata_wait_bsy_lem (suc fuel) zero s e less =
      let (ready, _, _, _, same) = A.status_ready s e in
      ((D.inb status_port s).1, rw ready refl, same ∙ ap (λ n. settled n (A.view s)) e)
  ata_wait_bsy_lem (suc fuel) (suc n) s e less =
      let (busy, next) = A.status_busy n s e in
      let (s', ends, v) =
        ata_wait_bsy_lem fuel n (D.inb status_port s).1 (ap (λ v. v.busy) next)
          (omega (arith, less)) in
      (s', rw busy ends, v ∙ ap (settled 0) next)

  -- The wait for DRQ at a drive that is not busy.
  pub wait_drq-now :
      (limit : ℕ) (s : D.State)
      → (A.view s).busy ≡ 0
      → offers (A.view s).phase ≡ true
      → (s' : D.State) × (wait_drq D (suc limit) s ≡ (true, [], s'))
        × (A.view s' ≡ record (A.view s) { busy = 0 })
  unfolding wait_drq
  wait_drq-now limit s e there =
      let (_, ok, ok', offers', same) = A.status_ready s e in
      (
        (D.inb status_port s).1,
        rw (ok, ok', offers', there) refl,
        same ∙ ap (λ n. settled n (A.view s)) e,
      )

module _ (D : Device) (latency settling : ℕ) (A : IsAta D latency settling)
    (Q : IsQuiet D latency settling A) where
  -- The wait for DRQ, with no message: it succeeds if the drive is busy for less than its rounds.
  pub wait_drq_lem :
      (limit n : ℕ) (s : D.State)
      → (A.view s).busy ≡ n
      → offers (A.view s).phase ≡ true
      → n < limit
      → (s' : D.State) × (wait_drq D limit s ≡ (true, [], s'))
        × (A.view s' ≡ record (A.view s) { busy = 0 })
  unfolding wait_drq
  wait_drq_lem zero n s e there less = absurd (omega (arith, less))
  wait_drq_lem (suc limit) zero s e there less = wait_drq-now D latency settling A limit s e there
  wait_drq_lem (suc limit) (suc n) s e there less =
      let (ok, ok', not_yet) = Q.bits n s e in
      let (_, next) = A.status_busy n s e in
      let (s', ends, v) =
        wait_drq_lem limit n (D.inb status_port s).1 (ap (λ v. v.busy) next)
          (ap (λ v. offers v.phase) next ∙ there) (omega (arith, less)) in
      (s', rw (ok, ok', not_yet) ends, v ∙ ap (settled 0) next)

  pub wait_drq-late :
      (limit n : ℕ) (s : D.State)
      → (A.view s).busy ≡ n
      → limit ≤ n
      → (s' : D.State) × (wait_drq D limit s ≡ (false, [], s'))
        × ((A.view s').words ≡ (A.view s).words)
  unfolding wait_drq
  wait_drq-late zero n s e late = (s, refl, refl)
  wait_drq-late (suc limit) zero s e late = absurd (omega (arith, late))
  wait_drq-late (suc limit) (suc n) s e late =
      let (ok, ok', not_yet) = Q.bits n s e in
      let (_, next) = A.status_busy n s e in
      let (s', ends, v) =
        wait_drq-late limit n (D.inb status_port s).1 (ap (λ v. v.busy) next)
          (omega (arith, late)) in
      (s', rw (ok, ok', not_yet) ends, v ∙ ap (λ v. v.words) next)

module _ (D : Device) (latency settling : ℕ) (A : IsAta D latency settling) where
  pub Accepts-same : (v w : View) → v ≡ w → Accepts w → Accepts v
  Accepts-same v w e (b, p) = (ap (λ v. v.busy) e ∙ b, ap (λ v. offers v.phase) e ∙ p)

  pub select_sector_lem :
      (lba : ℕ) (s : D.State)
      → Accepts (A.view s)
      → A.view (select_sector D lba s)
        ≡ record (A.view s) { registers = select lba; sector_cnt = 1 }
  unfolding select_sector
  select_sector_lem lba s ok =
      let r = select lba in
      let s1 = D.outb 0x1f6 r.drive_head s in
      let s2 = D.outb 0x1f2 1 s1 in
      let s3 = D.outb 0x1f3 r.lba_low s2 in
      let s4 = D.outb 0x1f4 r.lba_mid s3 in
      let e1 = A.drive_head r.drive_head s ok in
      let ok1 = Accepts-same (A.view s1) _ e1 ok in
      let e2 = A.sector_cnt 1 s1 ok1 in
      let ok2 = Accepts-same (A.view s2) _ e2 ok1 in
      let e3 = A.lba_low r.lba_low s2 ok2 in
      let ok3 = Accepts-same (A.view s3) _ e3 ok2 in
      let e4 = A.lba_mid r.lba_mid s3 ok3 in
      let ok4 = Accepts-same (A.view s4) _ e4 ok3 in
      A.lba_high r.lba_high s4 ok4
      ∙ ap (set_high r.lba_high)
          (e4 ∙ ap (set_mid r.lba_mid) (e3 ∙ ap (set_low r.lba_low) (e2 ∙ ap (set_count 1) e1)))

  -- The view in which the transfer of a sector starts.
  abbrev pub opened : ℕ → Phase → View → View
  opened lba p v = record v { registers = select lba; sector_cnt = 1; phase = p; busy = 0 }

  pub read_words_lem :
      (rounds i lba : ℕ) (v : View) (buffer : ℕ → ℕ) (s : D.State)
      → i + rounds ≡ 256
      → A.view s ≡ opened lba (sending i) v
      → ((k : ℕ)
          → (read_words D rounds i buffer s).0 k
            ≡ merged i (v.words (addressed (select lba))) buffer k)
        × (A.view (read_words D rounds i buffer s).1 ≡ opened lba (sending 256) v)
  unfolding read_words
  read_words_lem zero i lba v buffer s e at =
      let end : i ≡ 256 = omega (arith, e) in
      (λ k. ground (arith, end), at ∙ ap (λ j. opened lba (sending j) v) end)
  read_words_lem (suc rounds) i lba v buffer s e at =
      let (value, next) =
        A.data_in i s (ap (λ v. v.busy) at) (ap (λ v. v.phase) at) (ap (λ v. v.sector_cnt) at)
          (omega (arith, e)) in
      let word = (D.inw data_port s).0 in
      let is_word : word ≡ v.words (addressed (select lba)) i % 2 ^ 16 =
        value ∙ ap (λ v. v.words (addressed v.registers) i % 2 ^ 16) at in
      let (rest, done) =
        read_words_lem rounds (i + 1) lba v (put_bytes i word buffer) (D.inw data_port s).1
          (omega (arith, e)) (next ∙ ap (set_phase (sending (i + 1))) at) in
      (
        λ k.
            rest k
            ∙ merged-put_bytes i word (v.words (addressed (select lba))) buffer k (omega (arith, e))
                is_word,
        done,
      )

  -- The words of one sector from `i` on.
  abbrev pub filled : (i lba : ℕ) → (ℕ → ℕ) → (ℕ → ℕ → ℕ) → ℕ → ℕ → ℕ
  filled i lba bytes words l j =
      if (addressed (select lba) == l) && (leb i j && ltb j 256)
      then bytes (j * 2) % 2 ^ 8 + 2 ^ 8 * (bytes (j * 2 + 1) % 2 ^ 8)
      else words l j

pub either_same : (i n : ℕ) → (if i == 255 then n else n) ≡ n
either_same i n = ground arith

-- A drive that is not busy behind the last word.
module _ (D : Device) (latency : ℕ) (A : IsAta D latency 0) where
  pub write_words_lem :
      (rounds i lba : ℕ) (v : View) (bytes : ℕ → ℕ) (s : D.State)
      → i + rounds ≡ 256
      → A.view s ≡ opened D latency 0 A lba (receiving i) v
      → ((l j : ℕ)
          → (A.view (write_words D rounds i bytes s)).words l j
            ≡ filled D latency 0 A i lba bytes v.words l j)
        × Accepts (A.view (write_words D rounds i bytes s))
  unfolding write_words
  write_words_lem zero i lba v bytes s e at =
      let end : i ≡ 256 = omega (arith, e) in
      (
        λ l j. ap (λ v. v.words l j) at ∙ ground (arith, end),
        Accepts-same D latency 0 A (A.view s) _ at (refl, ground (arith, end)),
      )
  write_words_lem (suc rounds) i lba v bytes s e at =
      let w = bytes (i * 2) % 2 ^ 8 + 2 ^ 8 * (bytes (i * 2 + 1) % 2 ^ 8) in
      let next =
        A.data_out i w s (ap (λ v. v.busy) at) (ap (λ v. v.phase) at) (ap (λ v. v.sector_cnt) at)
          (omega (arith, e))
        ∙ ap (put_out i w) at in
      let v' = record v { words = with_word (addressed (select lba)) i w v.words } in
      let none' = either_same i 0 in
      let next' =
        next ∙ ap (λ n. settled n (opened D latency 0 A lba (receiving (i + 1)) v')) none' in
      let (rest, done) =
        write_words_lem rounds (i + 1) lba v' bytes (D.outw data_port w s) (omega (arith, e))
          next' in
      (
        λ l j. rest l j ∙ elim (Bool-cases (i == j)) [
          | inl here ↦
              let same = ap (λ n. bytes (n * 2)) ((==_iff i j).0 here) in
              let same' = ap (λ n. bytes (n * 2 + 1)) ((==_iff i j).0 here) in
              ground (arith, e, here, same, same')
          | inr away ↦ ground (arith, e, away)
        ],
        done,
      )
