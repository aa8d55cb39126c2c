-- ===== src/Fat/Found.antt =====
-- What `fat_find_file` of src/fs/fat.c finds in the root directory, entry by entry.
use os_eojin.Base.{
  ℕ, zero, suc, ◌+◌, ◌*◌, ◌≤◌, ◌<◌, ◌≡◌, ◌≢◌, refl, Bool, true, false, not, ◌&&◌, ◌||◌, ◌==◌,
  if◌then◌else◌, List, arith, ap, ◌∙◌, sym, subst, Bool-cases, inl, inr, ◌⊎◌, Option, none, some,
  ==_iff,
}
use os_eojin.Fat.{Allocator, Fat, new_buffer, free_buffer}
use os_eojin.Fat.Name.{fat_filename_match}
use os_eojin.Fat.Dir.{
  find_entry, found_entry, fat_find_file, entry_at, name_of, ext_of, attributes, is_volume_id,
}
use os_eojin.Fat.Walk.{root_sectors, root_sector, Decided, fat_find_file-root}

-- An entry in use, no part of a long name and no volume name, whose name matches.
abbrev pub is_hit : List ℕ → (ℕ → ℕ) → Bool
is_hit filename e =
    not (e 0 == 0)
    && (not (e 0 == 229)
        && (not (attributes e == 15)
            && (not (is_volume_id e) && fat_filename_match (name_of e) (ext_of e) filename)))

-- An entry that is neither the end mark nor a hit.
abbrev pub IsPassed : List ℕ → (ℕ → ℕ) → Type 0
IsPassed filename e = (e 0 ≢ 0) × (is_hit filename e ≡ false)

-- The result of the inner loop over the entries `k` to `n - 1` of a sector.
abbrev Scanned : List ℕ → (ℕ → ℕ) → (k n : ℕ) → Option (Option ℕ) → Type 0
Scanned filename b k n none = (i : ℕ) → k ≤ i → i < n → IsPassed filename (entry_at i b)
Scanned filename b k n (some none) =
    (j : ℕ) × (j < n)
    × (entry_at j b 0 ≡ 0)
    × ((i : ℕ) → k ≤ i → i < j → IsPassed filename (entry_at i b))
Scanned filename b k n (some (some j)) =
    (j < n)
    × (is_hit filename (entry_at j b) ≡ true)
    × ((i : ℕ) → k ≤ i → i < j → IsPassed filename (entry_at i b))

-- An entry that is passed, before the others.
from_here :
    (filename : List ℕ) (b : ℕ → ℕ) (k j : ℕ)
    → IsPassed filename (entry_at k b)
    → ((i : ℕ) → k + 1 ≤ i → i < j → IsPassed filename (entry_at i b))
    → (i : ℕ) → k ≤ i
    → i < j
    → IsPassed filename (entry_at i b)
from_here filename b k j here later i lo hi = elim (Bool-cases (k == i)) [
  | inl same ↦ subst (λ n. IsPassed filename (entry_at n b)) ((==_iff k i).0 same) here
  | inr other ↦ later i (ground arith) hi
]

Scanned-before :
    (filename : List ℕ) (b : ℕ → ℕ) (k n : ℕ) (r : Option (Option ℕ))
    → IsPassed filename (entry_at k b)
    → Scanned filename b (k + 1) n r
    → Scanned filename b k n r
Scanned-before filename b k n none here later = from_here filename b k n here later
Scanned-before filename b k n (some none) here (j, less, ends, later) =
    (j, less, ends, from_here filename b k j here later)
Scanned-before filename b k n (some (some j)) here (less, hit, later) =
    (less, hit, from_here filename b k j here later)

-- The tests of the inner loop on one entry.
tests {ℓ κ} :
    {X : Type ℓ} (P : X → Type κ) (ended deleted long volume matches : Bool) (x h r : X)
    → (ended ≡ true → P x)
    → ((not ended && (not deleted && (not long && (not volume && matches)))) ≡ true → P h)
    → (ended ≡ false
        → (not ended && (not deleted && (not long && (not volume && matches)))) ≡ false
        → P r)
    → P (
        if ended
        then x
        else if deleted
        then r
        else if long || volume
        then r
        else if matches
        then h
        else r)
tests P true deleted long volume matches x h r at hit miss = at refl
tests P false true long volume matches x h r at hit miss = miss refl refl
tests P false false true volume matches x h r at hit miss = miss refl refl
tests P false false false true matches x h r at hit miss = miss refl refl
tests P false false false false true x h r at hit miss = hit refl
tests P false false false false false x h r at hit miss = miss refl refl

find_entry-Scanned :
    (rounds k n : ℕ) (filename : List ℕ) (b : ℕ → ℕ)
    → k + rounds ≡ n
    → Scanned filename b k n (find_entry rounds k filename b)
unfolding find_entry
find_entry-Scanned zero k n filename b e = λ i lo hi. absurd (omega (arith, e, lo, hi))
find_entry-Scanned (suc rounds) k n filename b e =
    let x = entry_at k b in
    let rest = find_entry rounds (k + 1) filename b in
    let later = find_entry-Scanned rounds (k + 1) n filename b (omega (arith, e)) in
    tests (Scanned filename b k n) (x 0 == 0) (x 0 == 229) (attributes x == 15) (is_volume_id x)
      (fat_filename_match (name_of x) (ext_of x) filename) (some none) (some (some k)) rest
      (λ ended.
        (k, omega (arith, e), (==_iff (x 0) 0).0 ended, λ i lo hi. absurd (omega (arith, lo, hi))))
      (λ hit. (omega (arith, e), hit, λ i lo hi. absurd (omega (arith, lo, hi))))
      (λ going miss.
        Scanned-before filename b k n rest (λ e0. absurd (ground (arith, going, e0)), miss) later)

module _ {A : Allocator} where
  -- Entry `k` of sector `j` of the root directory.
  abbrev pub root_entry : (ℕ → ℕ) → Fat A → (j k : ℕ) → ℕ → ℕ
  root_entry buffer f j k = entry_at k (root_sector j buffer f)

  -- Every entry before entry `k` of sector `j` is passed.
  abbrev pub AllPassed : List ℕ → (ℕ → ℕ) → Fat A → (j k : ℕ) → Type 0
  AllPassed filename buffer f j k =
      (j' k' : ℕ)
      → k' < 16
      → 16 * j' + k' < 16 * j + k
      → IsPassed filename (root_entry buffer f j' k')

  -- What a search of the root directory finds: the first hit that no end mark precedes, or none.
  abbrev pub First : List ℕ → (ℕ → ℕ) → Fat A → Option (ℕ → ℕ) → Type 0
  First filename buffer f (some e) =
      (j k : ℕ) × (j < root_sectors f)
      × (k < 16)
      × (e ≡ root_entry buffer f j k)
      × (is_hit filename e ≡ true)
      × AllPassed filename buffer f j k
  First filename buffer f none =
      AllPassed filename buffer f (root_sectors f) 0
      ⊎ ((j k : ℕ) × (j < root_sectors f)
          × (k < 16)
          × (root_entry buffer f j k 0 ≡ 0)
          × AllPassed filename buffer f j k)

  -- The sectors before, and the entries before in this one.
  AllPassed-sectors :
      (filename : List ℕ) (buffer : ℕ → ℕ) (f : Fat A) (j k : ℕ)
      → k ≤ 16
      → ((d : ℕ) → d < j → find_entry 16 0 filename (root_sector d buffer f) ≡ none)
      → ((i : ℕ) → i < k → IsPassed filename (root_entry buffer f j i))
      → AllPassed filename buffer f j k
  AllPassed-sectors filename buffer f j k le before here j' k' less less' =
      elim (Bool-cases (j' == j)) [
        | inl same ↦
            let e = (==_iff j' j).0 same in
            subst (λ d. IsPassed filename (root_entry buffer f d k')) (sym e)
              (here k' (omega (arith, e, less')))
        | inr other ↦
            let bytes = root_sector j' buffer f in
            subst (Scanned filename bytes 0 16) (before j' (ground (arith, other, less', le, less)))
              (find_entry-Scanned 16 0 16 filename bytes refl) k' (omega arith) less
      ]

  First-Decided :
      (filename : List ℕ) (buffer : ℕ → ℕ) (f g : Fat A) (p : ℕ)
      (o : Option (Option ℕ × ℕ × (ℕ → ℕ)))
      → Decided (find_entry 16 0 filename) 0 (root_sectors f) buffer f o
      → First filename buffer f (found_entry p (o, g)).0
  First-Decided filename buffer f g p none decided = inl (
      AllPassed-sectors filename buffer f (root_sectors f) 0 (omega arith)
        (λ d less. decided d (omega arith) less) (λ i less. absurd (omega (arith, less))))
  First-Decided filename buffer f g p (some (none, j, bytes)) (lo, less, is, found, before) =
      let (k, in_sector, ended, earlier) =
        subst (λ b. Scanned filename b 0 16 (some none)) is
          (subst (Scanned filename bytes 0 16) found
            (find_entry-Scanned 16 0 16 filename bytes refl)) in
      inr (
        j,
        k,
        less,
        in_sector,
        ended,
        AllPassed-sectors filename buffer f j k (omega (arith, in_sector))
            (λ d less'. before d (omega arith) less') (λ i less'. earlier i (omega arith) less'),
      )
  First-Decided filename buffer f g p (some (some k, j, bytes)) (lo, less, is, found, before) =
      let (in_sector, hit, earlier) =
        subst (Scanned filename bytes 0 16) found
          (find_entry-Scanned 16 0 16 filename bytes refl) in
      (
        j,
        k,
        less,
        in_sector,
        ap (entry_at k) is,
        hit,
        AllPassed-sectors filename buffer f j k (omega (arith, in_sector))
            (λ d less'. before d (omega arith) less')
            (λ i less'.
              subst (λ b. IsPassed filename (entry_at i b)) is (earlier i (omega arith) less')),
      )

  found_entry-freed :
      (p : ℕ) (o : Option (Option ℕ × ℕ × (ℕ → ℕ))) (f : Fat A)
      → found_entry p (o, f) ≡ ((found_entry p (o, f)).0, free_buffer p f)
  found_entry-freed p none f = refl
  found_entry-freed p (some (none, i, bytes)) f = refl
  found_entry-freed p (some (some k, i, bytes)) f = refl

  -- On a mounted volume with sectors of some bytes, a drive that answers and a buffer that is not null, in the root
  -- directory, with fuel for its sectors and one more, fat_find_file ends and frees its buffer. It
  -- returns the first entry of the directory that is in use, no part of a long name, no volume name and
  -- of a name that matches, if there is one before the end mark and the end of the directory; otherwise
  -- it returns none.
  pub fat_find_file-First :
      (fuel : ℕ) (filename : List ℕ) (f : Fat A)
      → f.is_fat_initialized ≡ true
      → f.current_dir_cluster ≡ 0
      → 0 < f.fat_info.bytes_per_sector
      → f.drive.ready ≡ true
      → (A.kmalloc 512 f.heap).0 ≢ 0
      → root_sectors f < fuel
      → let (p, f') = new_buffer f in
        (o : Option (ℕ → ℕ)) × (fat_find_file fuel filename f ≡ some (o, free_buffer p f'))
        × First filename (A.bytes p f'.heap) f o
  fat_find_file-First fuel filename f mounted root _ ready got enough =
      let (p, f') = new_buffer f in
      let (o, ends, decided) = fat_find_file-root fuel filename f mounted root ready got enough in
      (
        (found_entry p (o, f')).0,
        ends ∙ ap (λ r. some r) (found_entry-freed p o f'),
        First-Decided filename (A.bytes p f'.heap) f f' p o decided,
      )
