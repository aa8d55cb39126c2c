-- ===== src/Fat/ReadOnly.antt =====
-- The operations of src/fs/fat.c that only read leave the drive.
use os_eojin.Base.{
  ℕ, zero, suc, ◌+◌, ◌/◌, ◌%◌, ◌≡◌, refl, Bool, true, false, not, leb, ◌==◌, if◌then◌else◌, List,
  Option, none, some, ◌∙◌, arith, Bool-cases, inl, inr,
}
use os_eojin.Ata.{Drive}
use os_eojin.Fat.{
  Allocator, Fat, new_buffer, free_buffer, fat_next_cluster, follow, sub_sector,
  fat_read_dir_sector, read_sector,
}
use os_eojin.Fat.Dir.{
  walk, on_sector, on_scan, after, find_entry, found_entry, fat_find_file, is_directory,
}
use os_eojin.Fat.Path.{enter, fat_change_dir}
use os_eojin.Fat.Mount.{
  list_sector, list_sectors, end_or, fat_list, fat_init, list_entries, say_all, bpb_of,
}

-- A property of both branches, and of the one that is taken.
pub if_both {ℓ κ} :
    {X : Type ℓ} (P : X → Type κ) (b : Bool) (x y : X) → P x → P y → P (if b then x else y)
if_both P true x y here other = here
if_both P false x y here other = other

pub if_other {ℓ κ} :
    {X : Type ℓ} (P : X → Type κ) (b : Bool) (x y : X) → b ≡ false → P y → P (if b then x else y)
if_other P true x y e other = absurd (ground (arith, e))
if_other P false x y e other = other

module _ {A : Allocator} where
  -- What a result leaves of the drive; fuel that ran out gives none.
  abbrev pub Stays : Drive → Option (Fat A) → Type 0
  Stays d none = Unit
  Stays d (some f) = f.drive ≡ d

  abbrev pub StaysWith {ℓ} : {X : Type ℓ} → Drive → Option (X × Fat A) → Type 0
  StaysWith d none = Unit
  StaysWith d (some (x, f)) = f.drive ≡ d

  pub fat_next_cluster-drive : (c : ℕ) (f : Fat A) → (fat_next_cluster c f).1.drive ≡ f.drive
  unfolding fat_next_cluster
  fat_next_cluster-drive c f = refl

  follow-drive : (steps curr : ℕ) (f : Fat A) → (follow steps curr f).1.drive ≡ f.drive
  unfolding follow
  follow-drive zero curr f = refl
  follow-drive (suc steps) curr f =
      let (next, f') = fat_next_cluster curr f in
      if_both (λ r. r.1.drive ≡ f.drive) (leb 65528 curr) (none, f) (follow steps next f') refl
        (follow-drive steps next f' ∙ fat_next_cluster-drive curr f)

  sub_sector-drive :
      (offset : ℕ) (buffer : ℕ → ℕ) (o : Option ℕ) (f : Fat A)
      → (sub_sector offset buffer (o, f)).1.drive ≡ f.drive
  sub_sector-drive offset buffer none f = refl
  sub_sector-drive offset buffer (some curr) f = refl

  fat_read_dir_sector-drive :
      (cluster i : ℕ) (buffer : ℕ → ℕ) (f : Fat A)
      → (fat_read_dir_sector cluster i buffer f).1.drive ≡ f.drive
  unfolding fat_read_dir_sector
  fat_read_dir_sector-drive cluster i buffer f =
      let spc = f.fat_info.sectors_per_cluster in
      let (o, f') = follow (i / spc) cluster f in
      if_both (λ r. r.1.drive ≡ f.drive) (cluster == 0) _ (sub_sector (i % spc) buffer (o, f')) refl
        (sub_sector-drive (i % spc) buffer o f' ∙ follow-drive (i / spc) cluster f)

  on_scan-drive {ℓ} :
      {X : Type ℓ} (i : ℕ) (bytes : ℕ → ℕ) (next : Option (Option (X × ℕ × (ℕ → ℕ)) × Fat A))
      (o : Option X) (f : Fat A) (d : Drive)
      → f.drive ≡ d
      → StaysWith d next
      → StaysWith d (on_scan i bytes next o f)
  on_scan-drive i bytes next none f d e e' = e'
  on_scan-drive i bytes next (some x) f d e e' = e

  on_sector-drive {ℓ} :
      {X : Type ℓ} (scan : (ℕ → ℕ) → Option X) (i : ℕ)
      (next : (ℕ → ℕ) → Option (Option (X × ℕ × (ℕ → ℕ)) × Fat A)) (o : Option (ℕ → ℕ)) (f : Fat A)
      (d : Drive)
      → f.drive ≡ d
      → ((bytes : ℕ → ℕ) → StaysWith d (next bytes))
      → StaysWith d (on_sector scan i next o f)
  on_sector-drive scan i next none f d e e' = e
  on_sector-drive scan i next (some bytes) f d e e' =
      on_scan-drive i bytes (next bytes) (scan bytes) f d e (e' bytes)

  walk-drive {ℓ} :
      {X : Type ℓ} (scan : (ℕ → ℕ) → Option X) (fuel cluster i : ℕ) (buffer : ℕ → ℕ) (f : Fat A)
      (d : Drive)
      → f.drive ≡ d
      → StaysWith d (walk scan fuel cluster i buffer f)
  unfolding walk
  walk-drive scan zero cluster i buffer f d e = tt
  walk-drive scan (suc fuel) cluster i buffer f d e =
      let (o, f') = fat_read_dir_sector cluster i buffer f in
      let e' = fat_read_dir_sector-drive cluster i buffer f ∙ e in
      on_sector-drive scan i (λ bytes. walk scan fuel cluster (i + 1) bytes f') o f' d e'
        (λ bytes. walk-drive scan fuel cluster (i + 1) bytes f' d e')

  -- What follows a loop.
  pub after-drive {ℓ} :
      {X : Type ℓ} (g : X × Fat A → Fat A) (o : Option (X × Fat A)) (d : Drive)
      → ((x : X) (f : Fat A) → f.drive ≡ d → (g (x, f)).drive ≡ d)
      → StaysWith d o
      → Stays d (after g o)
  after-drive g none d keeps e = tt
  after-drive g (some (x, f)) d keeps e = keeps x f e

  found_entry-drive :
      (p : ℕ) (o : Option (Option (Option ℕ × ℕ × (ℕ → ℕ)) × Fat A)) (d : Drive)
      → StaysWith d o
      → StaysWith d (after (found_entry p) o)
  found_entry-drive p none d e = tt
  found_entry-drive p (some (none, f)) d e = e
  found_entry-drive p (some (some (none, i, bytes), f)) d e = e
  found_entry-drive p (some (some (some k, i, bytes), f)) d e = e

  pub fat_find_file-drive :
      (fuel : ℕ) (name : List ℕ) (f : Fat A) → StaysWith f.drive (fat_find_file fuel name f)
  unfolding fat_find_file
  fat_find_file-drive fuel name f =
      let (p, f') = new_buffer f in
      if_both (StaysWith f.drive) (not f.is_fat_initialized) _ _ refl (
        if_both (StaysWith f.drive) (p == 0) _ _ refl (
          found_entry-drive p _ f.drive (
            walk-drive (find_entry 16 0 name) fuel f.current_dir_cluster 0 (A.bytes p f'.heap) f'
              f.drive refl)))

  enter-drive :
      (name : List ℕ) (d : Drive) (o : Option (ℕ → ℕ)) (f : Fat A)
      → f.drive ≡ d
      → (enter name (o, f)).drive ≡ d
  enter-drive name d none f e = e
  enter-drive name d (some entry) f e =
      if_both (λ (g : Fat A). g.drive ≡ d) (is_directory entry) _ _ e e

  pub fat_change_dir-drive :
      (fuel : ℕ) (name : List ℕ) (f : Fat A) → Stays f.drive (fat_change_dir fuel name f)
  unfolding fat_change_dir
  fat_change_dir-drive fuel name f = if_both (Stays f.drive) (not f.is_fat_initialized) _ _ refl (
      after-drive (enter name) (fat_find_file fuel name f) f.drive (enter-drive name f.drive)
        (fat_find_file-drive fuel name f))

  end_or-drive :
      (ended : Bool) (f : Fat A) (next : Option (Fat A)) (d : Drive)
      → f.drive ≡ d
      → Stays d next
      → Stays d (end_or ended f next)
  end_or-drive true f next d e e' = e
  end_or-drive false f next d e e' = e'

  list_sector-drive :
      (next : (ℕ → ℕ) → Fat A → Option (Fat A)) (o : Option (ℕ → ℕ)) (f : Fat A) (d : Drive)
      → f.drive ≡ d
      → ((bytes : ℕ → ℕ) (g : Fat A) → g.drive ≡ d → Stays d (next bytes g))
      → Stays d (list_sector next (o, f))
  list_sector-drive next none f d e e' = e
  list_sector-drive next (some bytes) f d e e' =
      let (lines, ended) = list_entries 16 0 bytes in
      end_or-drive ended (say_all lines f) (next bytes (say_all lines f)) d e
        (e' bytes (say_all lines f) e)

  list_sectors-drive :
      (fuel i : ℕ) (buffer : ℕ → ℕ) (f : Fat A) (d : Drive)
      → f.drive ≡ d
      → Stays d (list_sectors fuel i buffer f)
  unfolding list_sectors
  list_sectors-drive zero i buffer f d e = tt
  list_sectors-drive (suc fuel) i buffer f d e =
      let (o, f') = fat_read_dir_sector f.current_dir_cluster i buffer f in
      list_sector-drive (list_sectors fuel (i + 1)) o f' d
        (fat_read_dir_sector-drive f.current_dir_cluster i buffer f ∙ e)
        (λ bytes g e'. list_sectors-drive fuel (i + 1) bytes g d e')

  free-drive :
      (p : ℕ) (o : Option (Fat A)) (d : Drive) → Stays d o → Stays d (after (free_buffer p) o)
  free-drive p none d e = tt
  free-drive p (some f) d e = e

  pub fat_list-drive : (fuel : ℕ) (f : Fat A) → Stays f.drive (fat_list fuel f)
  unfolding fat_list
  fat_list-drive fuel f =
      let (p, f') = new_buffer f in
      if_both (Stays f.drive) (not f.is_fat_initialized) _ _ refl (
        if_both (Stays f.drive) (p == 0) _ _ refl
          (free-drive p _ f.drive (list_sectors-drive fuel 0 (A.bytes p f'.heap) _ f.drive refl)))

  pub fat_init-drive : (f : Fat A) → Stays f.drive (fat_init f)
  unfolding fat_init
  fat_init-drive f =
      let (p, f') = new_buffer f in
      let sector = read_sector 0 (A.bytes p f'.heap) f' in
      elim (Bool-cases (p == 0)) [
        | inl null ↦ rw null refl
        | inr got ↦ elim (Bool-cases ((bpb_of sector).bytes_per_sector == 0)) [
          | inl none' ↦ rw (got, none') tt
          | inr some' ↦ rw (got, some') refl
        ]
      ]
