-- ===== src/Shell/Loaded.antt =====
-- What the loop of exec in src/kernel/kernel.c puts into memory.
use os_eojin.Base.{
  ℕ, zero, suc, ◌+◌, ◌-◌, ◌^◌, ◌<◌, ◌≡◌, refl, true, false, List, [], ◌∷◌, ◌++◌, length, arith, ◌∙◌,
  ap, ap₂, sym, fun_ext, ltb, leb, ◌&&◌, some, Bool-cases, inl, inr, get_or, if◌then◌else◌,
  length-append, get_or-append, ◌==◌,
}
use mathlib.Core.List.{append-nil}
use os_eojin.Machine.{store_byte}
use os_eojin.Fat.{Allocator, Fat, read_sector, fat_next_cluster, fat_lba_of_cluster}
use os_eojin.Fat.Entry.{Mounted, aside, entry, fat_next_cluster-entry, fat_next_cluster-aside}
use os_eojin.Fat.Chains.{Linked, Linked-aside}
use os_eojin.Shell.File.{copy_out, load_file}
use os_eojin.Shell.Contents.{
  bytes_up_to, length-bytes_up_to, get_or-bytes_up_to, file_bytes, Reachable, file_bytes-aside,
  Reachable-aside, file_bytes-nothing, bytes_up_to-read_sector,
}

-- Memory with these bytes from `ptr` on.
abbrev pub holding : (ptr : ℕ) → List ℕ → (ℕ → ℕ) → ℕ → ℕ
holding ptr bytes mem a =
    if leb ptr a && ltb (a - ptr) (length bytes) then get_or bytes (a - ptr) 0 else mem a

holding-nothing : (ptr : ℕ) (mem : ℕ → ℕ) (a : ℕ) → holding ptr [] mem a ≡ mem a
holding-nothing ptr mem a = ground arith

copy_out_lem :
    (n i ptr : ℕ) (buf mem : ℕ → ℕ) (a : ℕ)
    → copy_out n i ptr buf mem a
      ≡ (if leb (ptr + i) a && ltb a (ptr + i + n) then buf (a - ptr) else mem a)
unfolding copy_out
copy_out_lem zero i ptr buf mem a = ground arith
copy_out_lem (suc n) i ptr buf mem a =
    copy_out_lem n (i + 1) ptr buf (store_byte (ptr + i) (buf i) mem) a
    ∙ elim (Bool-cases (ptr + i == a)) [
      | inl here ↦ let e : i ≡ a - ptr = ground (arith, here) in rw e (ground arith)
      | inr away ↦ ground (arith, away)
    ]

get_or-front : (xs ys : List ℕ) (j : ℕ) → j < length xs → get_or (xs ++ ys) j 0 ≡ get_or xs j 0
get_or-front [] ys j less = absurd (omega (arith, less))
get_or-front (x ∷ xs) ys zero less = refl
get_or-front (x ∷ xs) ys (suc j) less = get_or-front xs ys j (omega (arith, less))

-- A part, and the rest behind it.
holding-append :
    (ptr : ℕ) (xs ys : List ℕ) (mem : ℕ → ℕ) (a : ℕ)
    → holding (ptr + length xs) ys (holding ptr xs mem) a ≡ holding ptr (xs ++ ys) mem a
holding-append ptr xs ys mem a =
    let both = length-append xs ys in
    elim (Bool-cases (leb ptr a)) [
      | inr below ↦ ground (arith, below)
      | inl from ↦ elim (Bool-cases (ltb (a - ptr) (length xs))) [
        | inl front ↦
            let e = get_or-front xs ys (a - ptr) (ground (arith, front)) in
            ground (arith, from, front, both, e)
        | inr behind ↦
            let e =
              get_or-append xs ys (a - ptr) (a - (ptr + length xs)) 0
                (ground (arith, from, behind)) in
            ground (arith, from, behind, both, e)
      ]
    ]

-- What one sector gives.
copy_out-holding :
    (size ptr : ℕ) (buf mem : ℕ → ℕ)
    → copy_out (if ltb 512 size then 512 else size) 0 ptr buf mem
      ≡ holding ptr (bytes_up_to 512 size 0 buf) mem
copy_out-holding size ptr buf mem = fun_ext (λ a.
    let n = if ltb 512 size then 512 else size in
    let long = length-bytes_up_to 512 size 0 buf in
    copy_out_lem n 0 ptr buf mem a ∙ elim (Bool-cases (leb ptr a && ltb (a - ptr) n)) [
      | inr out ↦ ground (arith, out, long)
      | inl within ↦
          let e =
            get_or-bytes_up_to 512 size 0 (a - ptr) buf (ground (arith, within))
              (ground (arith, within)) in
          ground (arith, within, long, e)
    ])

module _ {A : Allocator} where
  load_file-done :
      (fuel cluster size ptr : ℕ) (buf mem : ℕ → ℕ) (f : Fat A)
      → (ltb 0 size && ltb cluster 65528) ≡ false
      → load_file (suc fuel) cluster size ptr buf mem f ≡ some (mem, f)
  unfolding load_file
  load_file-done fuel cluster size ptr buf mem f stop = rw stop refl

  load_file-suc :
      (fuel cluster size ptr : ℕ) (buf mem : ℕ → ℕ) (f : Fat A)
      → (ltb 0 size && ltb cluster 65528) ≡ true
      → let buf' = read_sector (fat_lba_of_cluster cluster f) buf f in
        load_file (suc fuel) cluster size ptr buf mem f
        ≡ load_file fuel
            (fat_next_cluster cluster f).0
            (size - 512)
            (ptr + 512)
            buf'
            (holding ptr (bytes_up_to 512 size 0 buf') mem)
            (fat_next_cluster cluster f).1
  unfolding load_file
  load_file-suc fuel cluster size ptr buf mem f go =
      let buf' = read_sector (fat_lba_of_cluster cluster f) buf f in
      let left : size - (if ltb 512 size then 512 else size) ≡ size - 512 = ground arith in
      rw (go, left, copy_out-holding size ptr buf' mem) refl

  -- The part behind the first sector: nothing, if that was not full.
  holding-file :
      (size ptr : ℕ) (cs : List ℕ) (buf mem : ℕ → ℕ) (f : Fat A) (a : ℕ)
      → let xs = bytes_up_to 512 size 0 buf in
        holding (ptr + 512) (file_bytes cs (size - 512) f) (holding ptr xs mem) a
        ≡ holding ptr (xs ++ file_bytes cs (size - 512) f) mem a
  holding-file size ptr cs buf mem f a =
      let xs = bytes_up_to 512 size 0 buf in
      let long = length-bytes_up_to 512 size 0 buf in
      elim (Bool-cases (ltb size 512)) [
        | inr full ↦
            let e : length xs ≡ 512 = ground (arith, full, long) in
            ap (λ n. holding (ptr + n) (file_bytes cs (size - 512) f) (holding ptr xs mem) a)
              (sym e)
            ∙ holding-append ptr xs (file_bytes cs (size - 512) f) mem a
        | inl short ↦
            let e : size - 512 ≡ 0 = ground (arith, short) in
            let none' : file_bytes cs (size - 512) f ≡ [] =
              ap (λ n. file_bytes cs n f) e ∙ file_bytes-nothing cs f in
            ap (λ ys. holding (ptr + 512) ys (holding ptr xs mem) a) none'
            ∙ holding-nothing (ptr + 512) (holding ptr xs mem) a
            ∙ ap (λ zs. holding ptr zs mem a) (sym (append-nil xs))
            ∙ ap (λ ys. holding ptr (xs ++ ys) mem a) (sym none')
      ]

  -- On a drive that answers, for a chain of clusters `cs` that the table links, each once, all in sectors of
  -- 28 bits, and with fuel for each of them: the loop of exec ends with the bytes of the file in memory
  -- from `ptr` on, one sector for each cluster up to the file's size; every other byte of memory, the drive
  -- and the console stay.
  pub load_file_lem :
      (fuel size ptr : ℕ) (cs : List ℕ) (first : ℕ) (buf mem : ℕ → ℕ) (f : Fat A)
      → length cs < fuel
      → Mounted f
      → Linked cs first f
      → Reachable cs f
      → (mem' : ℕ → ℕ) × (heap : A.State) × (load_file fuel first size ptr buf mem f
          ≡ some (mem', aside heap f.console f))
        × ((a : ℕ) → mem' a ≡ holding ptr (file_bytes cs size f) mem a)
  load_file_lem zero size ptr cs first buf mem f less on l low = absurd (omega (arith, less))
  load_file_lem (suc fuel) size ptr [] first buf mem f less on l low = (
    mem,
    f.heap,
    load_file-done fuel first size ptr buf mem f (ground (arith, l.0)),
    λ a. sym (holding-nothing ptr mem a),
  )
  load_file_lem (suc fuel) zero ptr (c ∷ cs) first buf mem f less on l low = (
    mem,
    f.heap,
    load_file-done fuel first 0 ptr buf mem f refl,
    λ a.
        let none' = file_bytes-nothing (c ∷ cs) f in
        sym (ap (λ ys. holding ptr ys mem a) none' ∙ holding-nothing ptr mem a),
  )
  load_file_lem (suc fuel) (suc size) ptr (c ∷ cs) first buf mem f less on l low =
      let small : first < 2 ^ 16 = omega (arith, l.0, l.1) in
      let go : (ltb 0 (suc size) && ltb first 65528) ≡ true = ground (arith, l.0, l.1) in
      let buf' = read_sector (fat_lba_of_cluster first f) buf f in
      let xs = bytes_up_to 512 (suc size) 0 buf' in
      let ys = file_bytes cs (suc size - 512) f in
      let f1 = (fat_next_cluster first f).1 in
      let next : (fat_next_cluster first f).0 ≡ entry c f =
        fat_next_cluster-entry first f small on ∙ ap (λ n. entry n f) l.0 in
      let same : f1 ≡ aside f1.heap f.console f = fat_next_cluster-aside first f in
      let read = bytes_up_to-read_sector (suc size) first c buf f l.0 low.0 on.ready in
      let (mem', heap, loaded, there) =
        load_file_lem fuel (suc size - 512) (ptr + 512) cs (entry c f) buf' (holding ptr xs mem)
          (aside f1.heap f.console f) (omega (arith, less))
          (record { low = on.low; ready = on.ready })
          (Linked-aside cs (entry c f) f1.heap f.console f l.3)
          (Reachable-aside cs f1.heap f.console f low.1) in
      (
        mem',
        heap,
        load_file-suc fuel first (suc size) ptr buf mem f go
            ∙ ap₂ (λ n g. load_file fuel n (suc size - 512) (ptr + 512) buf' (holding ptr xs mem) g)
                next same
            ∙ loaded,
        λ a.
            there a
            ∙ ap (λ zs. holding (ptr + 512) zs (holding ptr xs mem) a)
                (file_bytes-aside cs (suc size - 512) f1.heap f.console f)
            ∙ holding-file (suc size) ptr cs buf' mem f a
            ∙ ap (λ zs. holding ptr (zs ++ ys) mem a) read,
      )
