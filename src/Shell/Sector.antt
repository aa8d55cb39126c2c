-- ===== src/Shell/Sector.antt =====
-- The commands write and read of src/kernel/kernel.c: a string in sector 200.
use os_eojin.Base.{ℕ, List, [], ◌∷◌, ◌++◌, codes, Option, none, some, ltb, if◌then◌else◌}
use os_eojin.Utils.{strcpy}
use os_eojin.Isr.{c_string}
use os_eojin.Fat.{Allocator, Fat, say, new_buffer, free_buffer, read_sector, write_sector}
use os_eojin.Fat.Dir.{set_bytes, after}
use os_eojin.Shell.State.{argument}

-- `memset(buf, 0, 512)`
abbrev pub cleared : (ℕ → ℕ) → ℕ → ℕ
cleared buffer k = if ltb k 512 then 0 else buffer k

-- `strcpy((char*)buf, s)`
abbrev pub copy_string : List ℕ → (ℕ → ℕ) → ℕ → ℕ
copy_string s buffer = set_bytes 0 (strcpy s ++ (0 ∷ [])) buffer

abbrev pub text_or_default : Option (List ℕ) → List ℕ
text_or_default none = codes "TEST_DATA_DEFAULT"
text_or_default (some arg) = arg

module _ {A : Allocator} where
  -- Neither command tests what `kmalloc` returns. `none` is a string that does not end within the
  -- fuel: the buffer is printed up to its first 0, which may lie behind it.
  unfoldable pub write : (fuel : ℕ) → List ℕ → ℕ → Fat A → Option (Fat A)
  write fuel input offset f =
      let (p, f1) = new_buffer f in
      let buf =
        copy_string (text_or_default (argument input offset)) (cleared (A.bytes p f1.heap)) in
      after
        (λ text.
          let told = say (codes "\n") (say text (say (codes "Writing to LBA 200: ") f1)) in
          say (codes "Write Done.\n") (free_buffer p (write_sector 200 buf told)))
        (c_string fuel 0 buf)

  unfoldable pub read : (fuel : ℕ) → Fat A → Option (Fat A)
  read fuel f =
      let (p, f1) = new_buffer f in
      let f2 = say (codes "Reading from LBA 200...\n") f1 in
      let buf = read_sector 200 (cleared (A.bytes p f1.heap)) f2 in
      after (λ text. free_buffer p (say (codes "\n") (say text (say (codes "Data: ") f2))))
        (c_string fuel 0 buf)
