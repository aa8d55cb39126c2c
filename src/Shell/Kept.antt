-- ===== src/Shell/Kept.antt =====
-- What the command write of src/kernel/kernel.c puts on the drive, read prints.
use os_eojin.Base.{
  ℕ, ◌<◌, ◌≡◌, refl, true, List, [], ◌∷◌, ◌++◌, length, arith, ◌∙◌, All, some, ap, sym, codes,
}
use os_eojin.Ata.Sectors.{ata_read_sector-ata_write_sector}
use os_eojin.Utils.{get_next_token, strcpy, strcmp}
use os_eojin.Utils.Text.{IsText, IsSolid, get_next_token_lem, strcpy_all}
use os_eojin.Fat.{Allocator, Fat, say, new_buffer, free_buffer, read_sector, write_sector}
use os_eojin.Shell.State.{Shell, Pages, token_if, argument, with_fat, prompt}
use os_eojin.Shell.Sector.{cleared, copy_string, write, read}
use os_eojin.Shell.Text.{Spells, c_string-Spells, Spells-set_bytes, Spells-agree}
use os_eojin.Shell.{user_input, run, on_file}
use mathlib.Core.List.{append-nil, append_assoc}

Spells-copy_string : (s : List ℕ) (buffer : ℕ → ℕ) → IsText s → Spells s 0 (copy_string s buffer)
Spells-copy_string s buffer text =
    let e : strcpy s ≡ s = strcpy_all s text in rw e (Spells-set_bytes s 0 buffer text)

module _ {A : Allocator} where
  abbrev written : List ℕ → Fat A → Fat A
  written t f =
      let (p, f1) = new_buffer f in
      let buf = copy_string t (cleared (A.bytes p f1.heap)) in
      let told = say (codes "\n") (say t (say (codes "Writing to LBA 200: ") f1)) in
      say (codes "Write Done.\n") (free_buffer p (write_sector 200 buf told))

  write-written :
      (fuel : ℕ) (input : List ℕ) (offset : ℕ) (t : List ℕ) (f : Fat A)
      → argument input offset ≡ some t
      → IsText t
      → length t < fuel
      → write fuel input offset f ≡ some (written t f)
  unfolding write
  write-written fuel input offset t f e text less =
      rw
        (
          e,
          c_string-Spells fuel t 0
              (copy_string t (cleared (A.bytes (new_buffer f).0 (new_buffer f).1.heap))) less
              (Spells-copy_string t (cleared (A.bytes (new_buffer f).0 (new_buffer f).1.heap))
                text),
        )
        refl

  abbrev printed : List ℕ → Fat A → Fat A
  printed t f =
      let (p, f1) = new_buffer f in
      let f2 = say (codes "Reading from LBA 200...\n") f1 in
      free_buffer p (say (codes "\n") (say t (say (codes "Data: ") f2)))

  read-printed :
      (fuel : ℕ) (t : List ℕ) (f : Fat A)
      → length t < fuel
      → Spells t 0 (read_sector 200 (cleared (A.bytes (new_buffer f).0 (new_buffer f).1.heap)) f)
      → read fuel f ≡ some (printed t f)
  unfolding read
  read-printed fuel t f less sp = rw (c_string-Spells fuel t 0 _ less sp) refl

  Spells-read_sector :
      (t : List ℕ) (buffer bytes : ℕ → ℕ) (f : Fat A)
      → IsText t
      → length t < 512
      → f.drive.ready ≡ true
      → Spells t 0 bytes
      → Spells t 0 (read_sector 200 buffer (write_sector 200 bytes f))
  Spells-read_sector t buffer bytes f text short ready sp =
      Spells-agree t 0 bytes (read_sector 200 buffer (write_sector 200 bytes f))
        (omega (arith, short)) text
        (λ k small.
          ata_read_sector-ata_write_sector 200 200 bytes buffer f.drive k (omega arith)
            (omega arith) small ready)
        sp

write_token :
    (c : ℕ) (t : List ℕ)
    → get_next_token (codes "write " ++ (c ∷ t)) 0 ≡ (true, some (codes "write"), 5)
write_token c t =
    get_next_token_lem [] (codes "rite") (b' ' ∷ c ∷ t) 0 b'w'
      (
        (omega arith, omega arith),
        (
          (omega arith, omega arith),
          (
            (omega arith, omega arith),
            ((omega arith, omega arith), ((omega arith, omega arith), tt)),
          ),
        ),
      )
      refl

read_token : get_next_token (codes "read") 0 ≡ (true, some (codes "read"), 4)
read_token =
    get_next_token_lem [] (codes "ead") [] 0 b'r'
      (
        (omega arith, omega arith),
        (
          (omega arith, omega arith),
          ((omega arith, omega arith), ((omega arith, omega arith), tt)),
        ),
      )
      tt

write_argument :
    (c : ℕ) (t : List ℕ)
    → All IsSolid (c ∷ t)
    → argument (codes "write " ++ (c ∷ t)) 5 ≡ some (c ∷ t)
write_argument c t solid = ap token_if (
    ap (λ r. get_next_token (codes "write " ++ (c ∷ r)) 5) (sym (append-nil t))
    ∙ get_next_token_lem (codes "write") t [] 1 c solid tt)

module _ {A : Allocator} (P : Pages A) where
  run-write :
      (fuel : ℕ) (input : List ℕ) (offset : ℕ) (s : Shell A)
      → run P fuel input (codes "write") offset s ≡ on_file s (write fuel input offset s.fat)
  unfolding run strcmp
  run-write fuel input offset s = refl

  run-read :
      (fuel : ℕ) (input : List ℕ) (offset : ℕ) (s : Shell A)
      → run P fuel input (codes "read") offset s ≡ on_file s (read fuel s.fat)
  unfolding run strcmp
  run-read fuel input offset s = refl

  user_input-write :
      (fuel : ℕ) (c : ℕ) (t : List ℕ) (s : Shell A)
      → All IsSolid (c ∷ t)
      → IsText (c ∷ t)
      → length (c ∷ t) < fuel
      → user_input P fuel (codes "write " ++ (c ∷ t)) s
        ≡ some (prompt (with_fat (written (c ∷ t) s.fat) s))
  unfolding user_input
  user_input-write fuel c t s solid text less =
      rw
        (
          write_token c t,
          run-write fuel (codes "write " ++ (c ∷ t)) 5 s,
          write-written fuel (codes "write " ++ (c ∷ t)) 5 (c ∷ t) s.fat (write_argument c t solid)
              text less,
        )
        refl

  user_input-read :
      (fuel : ℕ) (t : List ℕ) (s : Shell A)
      → length t < fuel
      → Spells t 0
          (read_sector 200 (cleared (A.bytes (new_buffer s.fat).0 (new_buffer s.fat).1.heap)) s.fat)
      → user_input P fuel (codes "read") s ≡ some (prompt (with_fat (printed t s.fat) s))
  unfolding user_input
  user_input-read fuel t s less sp =
      rw (read_token, run-read fuel (codes "read") 4 s, read-printed fuel t s.fat less sp) refl

  console-prompt :
      (t : List ℕ) (s : Shell A)
      → (prompt (with_fat (printed t s.fat) s)).fat.console
        ≡ s.fat.console
          ++ (codes "Reading from LBA 200...\n"
              ∷ codes "Data: "
              ∷ t
              ∷ codes "\n"
              ∷ codes "OS_eojin:"
              ∷ s.fat.current_path
              ∷ codes "> "
              ∷ [])
  console-prompt t s = simp append_assoc

  -- For a word of characters that fits the array of the argument, with a drive that answers and fuel
  -- for its bytes: after the command write, the command read ends and prints the word.
  pub user_input-kept :
      (fuel : ℕ) (c : ℕ) (t : List ℕ) (s : Shell A)
      → All IsSolid (c ∷ t)
      → IsText (c ∷ t)
      → length (c ∷ t) < 128
      → length (c ∷ t) < fuel
      → s.fat.drive.ready ≡ true
      → (s1 s2 : Shell A) × (user_input P fuel (codes "write " ++ (c ∷ t)) s ≡ some s1)
        × (user_input P fuel (codes "read") s1 ≡ some s2)
        × (s2.fat.console
            ≡ s1.fat.console
              ++ (codes "Reading from LBA 200...\n"
                  ∷ codes "Data: "
                  ∷ (c ∷ t)
                  ∷ codes "\n"
                  ∷ codes "OS_eojin:"
                  ∷ s.fat.current_path
                  ∷ codes "> "
                  ∷ []))
  user_input-kept fuel c t s solid text short less ready =
      let s1 = prompt (with_fat (written (c ∷ t) s.fat) s) in
      let (p, f1) = new_buffer s.fat in
      let (p', f') = new_buffer s1.fat in
      (
        s1,
        prompt (with_fat (printed (c ∷ t) s1.fat) s1),
        user_input-write fuel c t s solid text less,
        user_input-read fuel (c ∷ t) s1 less (
            Spells-read_sector (c ∷ t) (cleared (A.bytes p' f'.heap))
              (copy_string (c ∷ t) (cleared (A.bytes p f1.heap))) s.fat text (omega (arith, short))
              ready (Spells-copy_string (c ∷ t) (cleared (A.bytes p f1.heap)) text)),
        console-prompt (c ∷ t) s1,
      )
