-- ===== src/Shell/Contents.antt =====
-- The bytes of a file on a chain of clusters, as cat and exec of src/kernel/kernel.c read them: those
-- of one sector for each cluster, up to the file's size.
use os_eojin.Base.{
  ℕ, zero, suc, ◌+◌, ◌-◌, ◌/◌, ◌%◌, ◌^◌, ◌<◌, ◌≤◌, ◌≡◌, refl, true, List, [], ◌∷◌, ◌++◌, length,
  get_or, arith, ◌∙◌, ap, ap₂, sym, ◌==◌, ltb, if◌then◌else◌, All, subst,
}
use os_eojin.Ata.{Drive, ata_read_sector, select, addressed}
use os_eojin.Ata.Sectors.{addressed-select}
use os_eojin.Fat.{Allocator, Fat, read_sector, fat_lba_of_cluster}
use os_eojin.Fat.Entry.{aside, fat_lba_of_cluster-aside}

-- Byte `k` of a sector.
abbrev pub disk_byte : ℕ → Drive → ℕ → ℕ
disk_byte lba d k =
    if k % 2 == 0 then d.words lba (k / 2) % 2 ^ 8 else d.words lba (k / 2) / 2 ^ 8 % 2 ^ 8

-- The bytes from `at` on: `n` of them, and no more than `size`.
unfoldable pub bytes_up_to : (n size at : ℕ) → (ℕ → ℕ) → List ℕ
bytes_up_to zero size at g = []
bytes_up_to (suc n) zero at g = []
bytes_up_to (suc n) (suc size) at g = g at ∷ bytes_up_to n size (at + 1) g

pub bytes_up_to-agree :
    (n size at : ℕ) (g h : ℕ → ℕ)
    → at + n ≤ 512
    → ((k : ℕ) → k < 512 → g k ≡ h k)
    → bytes_up_to n size at g ≡ bytes_up_to n size at h
unfolding bytes_up_to
bytes_up_to-agree zero size at g h fits same = refl
bytes_up_to-agree (suc n) zero at g h fits same = refl
bytes_up_to-agree (suc n) (suc size) at g h fits same =
    ap₂ (λ x xs. x ∷ xs) (same at (omega (arith, fits)))
      (bytes_up_to-agree n size (at + 1) g h (omega (arith, fits)) same)

pub length-bytes_up_to :
    (n size at : ℕ) (g : ℕ → ℕ)
    → length (bytes_up_to n size at g) ≡ (if ltb n size then n else size)
unfolding bytes_up_to
length-bytes_up_to zero size at g = ground arith
length-bytes_up_to (suc n) zero at g = ground arith
length-bytes_up_to (suc n) (suc size) at g =
    let rest = length-bytes_up_to n size (at + 1) g in ground (arith, rest)

pub get_or-bytes_up_to :
    (n size at j : ℕ) (g : ℕ → ℕ)
    → j < n
    → j < size
    → get_or (bytes_up_to n size at g) j 0 ≡ g (at + j)
unfolding bytes_up_to
get_or-bytes_up_to zero size at j g less less' = absurd (omega arith)
get_or-bytes_up_to (suc n) zero at j g less less' = absurd (omega arith)
get_or-bytes_up_to (suc n) (suc size) at zero g less less' = ap g (omega arith)
get_or-bytes_up_to (suc n) (suc size) at (suc j) g less less' =
    get_or-bytes_up_to n size (at + 1) j g (omega (arith, less)) (omega (arith, less'))
    ∙ ap g (omega arith)

pub ata_read_sector-disk_byte :
    (lba : ℕ) (buffer : ℕ → ℕ) (d : Drive) (k : ℕ)
    → lba < 2 ^ 28
    → d.ready ≡ true
    → k < 512
    → ata_read_sector lba buffer d k ≡ disk_byte lba d k
unfolding ata_read_sector
ata_read_sector-disk_byte lba buffer d k low ready small =
    let e : addressed (select lba) ≡ lba = addressed-select lba ∙ omega arith in
    rw (e, ready) (ground arith)

module _ {A : Allocator} where
  -- What the chain `cs` holds of a file of `size` bytes.
  abbrev pub file_bytes : List ℕ → ℕ → Fat A → List ℕ
  file_bytes [] size f = []
  file_bytes (c ∷ cs) size f =
      bytes_up_to 512 size 0 (disk_byte (fat_lba_of_cluster c f) f.drive)
      ++ file_bytes cs (size - 512) f

  -- The sectors of these clusters have numbers of 28 bits.
  abbrev pub Reachable : List ℕ → Fat A → Type 0
  Reachable cs f = All (λ c. fat_lba_of_cluster c f < 2 ^ 28) cs

  pub file_bytes-aside :
      (cs : List ℕ) (size : ℕ) (heap : A.State) (console : List (List ℕ)) (f : Fat A)
      → file_bytes cs size (aside heap console f) ≡ file_bytes cs size f
  file_bytes-aside [] size heap console f = refl
  file_bytes-aside (c ∷ cs) size heap console f =
      ap₂ (λ xs ys. xs ++ ys)
        (ap (λ lba. bytes_up_to 512 size 0 (disk_byte lba f.drive))
          (fat_lba_of_cluster-aside c heap console f))
        (file_bytes-aside cs (size - 512) heap console f)

  pub Reachable-aside :
      (cs : List ℕ) (heap : A.State) (console : List (List ℕ)) (f : Fat A)
      → Reachable cs f
      → Reachable cs (aside heap console f)
  Reachable-aside [] heap console f low = tt
  Reachable-aside (c ∷ cs) heap console f low = (
    rw (fat_lba_of_cluster-aside c heap console f) low.0,
    Reachable-aside cs heap console f low.1,
  )

  pub file_bytes-nothing : (cs : List ℕ) (f : Fat A) → file_bytes cs 0 f ≡ []
  unfolding bytes_up_to
  file_bytes-nothing [] f = refl
  file_bytes-nothing (c ∷ cs) f = file_bytes-nothing cs f

  -- The bytes that a round reads.
  pub bytes_up_to-read_sector :
      (size first c : ℕ) (buf : ℕ → ℕ) (f : Fat A)
      → first ≡ c
      → fat_lba_of_cluster c f < 2 ^ 28
      → f.drive.ready ≡ true
      → bytes_up_to 512 size 0 (read_sector (fat_lba_of_cluster first f) buf f)
        ≡ bytes_up_to 512 size 0 (disk_byte (fat_lba_of_cluster c f) f.drive)
  bytes_up_to-read_sector size first c buf f e low ready =
      bytes_up_to-agree 512 size 0 (read_sector (fat_lba_of_cluster first f) buf f)
        (disk_byte (fat_lba_of_cluster first f) f.drive) (omega arith)
        (λ k less.
          ata_read_sector-disk_byte (fat_lba_of_cluster first f) buf f.drive k
            (subst (λ n. fat_lba_of_cluster n f < 2 ^ 28) (sym e) low) ready less)
      ∙ ap (λ n. bytes_up_to 512 size 0 (disk_byte (fat_lba_of_cluster n f) f.drive)) e
