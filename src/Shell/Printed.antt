-- ===== src/Shell/Printed.antt =====
-- What the loop of cat in src/kernel/kernel.c prints.
use os_eojin.Base.{
  ℕ, zero, suc, ◌+◌, ◌-◌, ◌^◌, ◌<◌, ◌≡◌, refl, true, false, List, [], ◌∷◌, ◌++◌, map, length, arith,
  ◌∙◌, ap, ap₂, sym, ltb, ◌&&◌, some, codes, ◌≢◌, ==_ne,
}
use mathlib.Core.List.{append-nil, append_assoc}
use os_eojin.Utils.{strcpy}
use os_eojin.Fat.Dir.{first_cluster_low, fat_find_file}
use os_eojin.Fat.{
  Allocator, Fat, say, new_buffer, free_buffer, read_sector, fat_next_cluster, fat_lba_of_cluster,
}
use os_eojin.Fat.Entry.{Mounted, aside, entry, fat_next_cluster-entry, fat_next_cluster-aside}
use os_eojin.Fat.Chains.{Linked, Linked-aside}
use os_eojin.Shell.File.{file_size, print_bytes, print_file, cat}
use os_eojin.Shell.Contents.{
  disk_byte, bytes_up_to, file_bytes, Reachable, file_bytes-aside, Reachable-aside,
  file_bytes-nothing, bytes_up_to-read_sector,
}

-- One message for each byte; that of a 0 is empty.
abbrev pub messages : List ℕ → List (List ℕ)
messages bytes = map (λ c. strcpy (c ∷ [])) bytes

map-append : (xs ys : List ℕ) → messages (xs ++ ys) ≡ messages xs ++ messages ys
map-append [] ys = refl
map-append (x ∷ xs) ys = ap (λ zs. strcpy (x ∷ []) ∷ zs) (map-append xs ys)

module _ {A : Allocator} where
  abbrev shown : List ℕ → Fat A → Fat A
  shown bytes f = aside f.heap (f.console ++ messages bytes) f

  paired :
      (a b : ℕ) (c d : List (List ℕ)) (f : Fat A)
      → a ≡ b
      → c ≡ d
      → ◌≡◌ {A = ℕ × Fat A} (a, aside f.heap c f) (b, aside f.heap d f)
  paired a b c d f e e' = ap₂ (λ x y. (x, aside f.heap y f)) e e'

  print_bytes-suc :
      (n i size : ℕ) (buf : ℕ → ℕ) (f : Fat A)
      → print_bytes (suc n) i (suc size) buf f
        ≡ print_bytes n (i + 1) size buf (aside f.heap (f.console ++ (strcpy (buf i ∷ []) ∷ [])) f)
  unfolding print_bytes
  print_bytes-suc n i size buf f =
      let go : ltb 0 (suc size) ≡ true = ground arith in
      let less : suc size - 1 ≡ size = omega arith in rw (go, less) refl

  print_bytes_lem :
      (n i size : ℕ) (buf : ℕ → ℕ) (f : Fat A)
      → print_bytes n i size buf f ≡ (size - n, shown (bytes_up_to n size i buf) f)
  unfolding print_bytes bytes_up_to
  print_bytes_lem zero i size buf f =
      paired size (size - 0) f.console (f.console ++ []) f (omega arith)
        (sym (append-nil f.console))
  print_bytes_lem (suc n) i zero buf f =
      paired 0 (0 - suc n) f.console (f.console ++ []) f (omega arith) (sym (append-nil f.console))
  print_bytes_lem (suc n) i (suc size) buf f =
      print_bytes-suc n i size buf f
      ∙ print_bytes_lem n (i + 1) size buf
          (aside f.heap (f.console ++ (strcpy (buf i ∷ []) ∷ [])) f)
      ∙ paired (size - n) (suc size - suc n)
          (f.console ++ (strcpy (buf i ∷ []) ∷ []) ++ messages (bytes_up_to n size (i + 1) buf))
          (f.console ++ messages (bytes_up_to (suc n) (suc size) i buf)) f (omega arith)
          (append_assoc f.console (strcpy (buf i ∷ []) ∷ [])
            (messages (bytes_up_to n size (i + 1) buf)))

  print_file-done :
      (fuel cluster size : ℕ) (buf : ℕ → ℕ) (f : Fat A)
      → (ltb 0 size && ltb cluster 65528) ≡ false
      → print_file (suc fuel) cluster size buf f ≡ some f
  unfolding print_file
  print_file-done fuel cluster size buf f stop = rw stop refl

  -- One round, in terms of what it reads.
  print_file-suc :
      (fuel cluster size : ℕ) (buf : ℕ → ℕ) (f : Fat A)
      → (ltb 0 size && ltb cluster 65528) ≡ true
      → let buf' = read_sector (fat_lba_of_cluster cluster f) buf f in
        let f1 = shown (bytes_up_to 512 size 0 buf') f in
        print_file (suc fuel) cluster size buf f
        ≡ print_file fuel
            (fat_next_cluster cluster f1).0
            (size - 512)
            buf'
            (fat_next_cluster cluster f1).1
  unfolding print_file
  print_file-suc fuel cluster size buf f go =
      let buf' = read_sector (fat_lba_of_cluster cluster f) buf f in
      rw (go, print_bytes_lem 512 0 size buf' f) refl

  pub print_file_lem :
      (fuel size : ℕ) (cs : List ℕ) (first : ℕ) (buf : ℕ → ℕ) (f : Fat A)
      → length cs < fuel
      → Mounted f
      → Linked cs first f
      → Reachable cs f
      → (heap : A.State) × (print_file fuel first size buf f
          ≡ some (aside heap (f.console ++ messages (file_bytes cs size f)) f))
  print_file_lem zero size cs first buf f less on l low = absurd (omega (arith, less))
  print_file_lem (suc fuel) size [] first buf f less on l low = (
    f.heap,
    print_file-done fuel first size buf f (ground (arith, l.0))
        ∙ ap (λ c. some (aside f.heap c f)) (sym (append-nil f.console)),
  )
  print_file_lem (suc fuel) zero (c ∷ cs) first buf f less on l low = (
    f.heap,
    print_file-done fuel first 0 buf f refl
        ∙ ap (λ c. some (aside f.heap c f))
            (sym (append-nil f.console)
              ∙ ap (λ bytes. f.console ++ messages bytes) (sym (file_bytes-nothing (c ∷ cs) f))),
  )
  print_file_lem (suc fuel) (suc size) (c ∷ cs) first buf f less on l low =
      let small : first < 2 ^ 16 = omega (arith, l.0, l.1) in
      let go : (ltb 0 (suc size) && ltb first 65528) ≡ true = ground (arith, l.0, l.1) in
      let buf' = read_sector (fat_lba_of_cluster first f) buf f in
      let bytes = bytes_up_to 512 (suc size) 0 buf' in
      let f1 = shown bytes f in
      let f2 = (fat_next_cluster first f1).1 in
      let next : (fat_next_cluster first f1).0 ≡ entry c f =
        fat_next_cluster-entry first f1 small (record { low = on.low; ready = on.ready })
        ∙ ap (λ n. entry n f) l.0 in
      let same : f2 ≡ aside f2.heap f1.console f = fat_next_cluster-aside first f1 in
      let read = bytes_up_to-read_sector (suc size) first c buf f l.0 low.0 on.ready in
      let (heap, rest) =
        print_file_lem fuel (suc size - 512) cs (entry c f) buf' (aside f2.heap f1.console f)
          (omega (arith, less)) (record { low = on.low; ready = on.ready })
          (Linked-aside cs (entry c f) f2.heap f1.console f l.3)
          (Reachable-aside cs f2.heap f1.console f low.1) in
      (
        heap,
        print_file-suc fuel first (suc size) buf f go
            ∙ ap₂ (λ n g. print_file fuel n (suc size - 512) buf' g) next same
            ∙ rest
            ∙ ap (λ c'. some (aside heap c' f))
                (ap (λ b. f1.console ++ messages b)
                    (file_bytes-aside cs (suc size - 512) f2.heap f1.console f)
                  ∙ ap (λ b. f.console ++ messages b ++ messages (file_bytes cs (suc size - 512) f))
                      read
                  ∙ append_assoc f.console _ _
                  ∙ ap (λ b. f.console ++ b)
                      (sym (
                        map-append
                          (bytes_up_to 512 (suc size) 0
                            (disk_byte (fat_lba_of_cluster c f) f.drive))
                          (file_bytes cs (suc size - 512) f)))),
      )

  -- Where fat_find_file finds the entry `e`, on a drive that answers, with a buffer that is not null:
  -- for a chain of clusters `cs` that the table links, each once, from the entry's first cluster on,
  -- all in sectors of 28 bits, and with fuel for each of them, cat ends, prints one message for each of
  -- the bytes in the first sector of every cluster, up to the size of the file, and then a new line,
  -- and leaves the drive. With one sector per cluster these are the bytes of the file.
  pub cat-messages :
      (fuel : ℕ) (name : List ℕ) (cs : List ℕ) (e : ℕ → ℕ) (f f0 : Fat A)
      → fat_find_file fuel name f ≡ some (some e, f0)
      → (new_buffer f0).0 ≢ 0
      → length cs < fuel
      → Mounted f0
      → Linked cs (first_cluster_low e) f0
      → Reachable cs f0
      → (f' : Fat A) × (cat fuel name f ≡ some f')
        × (f'.console
            ≡ f0.console ++ (messages (file_bytes cs (file_size e) f0) ++ (codes "\n" ∷ [])))
        × (f'.drive ≡ f0.drive)
  unfolding cat
  cat-messages fuel name cs e f f0 found got less on l low =
      let (p, f1) = new_buffer f0 in
      let (heap, printed) =
        print_file_lem fuel (file_size e) cs (first_cluster_low e) (A.bytes p f1.heap) f1 less
          (record { low = on.low; ready = on.ready })
          (Linked-aside cs (first_cluster_low e) f1.heap f0.console f0 l)
          (Reachable-aside cs f1.heap f0.console f0 low) in
      (
        free_buffer p (
            say (codes "\n")
              (aside heap (f1.console ++ messages (file_bytes cs (file_size e) f1)) f1)),
        rw (found, ==_ne p 0 got, printed) refl,
        append_assoc f0.console (messages (file_bytes cs (file_size e) f1)) (codes "\n" ∷ [])
            ∙ ap (λ b. f0.console ++ (messages b ++ (codes "\n" ∷ [])))
                (file_bytes-aside cs (file_size e) f1.heap f0.console f0),
        refl,
      )
