-- ===== src/Elf/Header.antt =====
-- Which files `elf_check_supported` of src/kernel/elf.c accepts.
use os_eojin.Base.{
  ℕ, ◌≡◌, ◌≢◌, refl, Bool, true, false, not, ◌&&◌, List, ◌⊎◌, inl, inr, ◌==◌, arith, Bool-cases,
  ◌∙◌, codes, ==_iff, ==_ne,
}
use os_eojin.Machine.{Machine, kprint}
use os_eojin.Elf.{e_ident, e_type, e_machine, test, elf_check_file, elf_check_supported}

abbrev pub IsElf : ℕ → (ℕ → ℕ) → Type 0
IsElf hdr mem =
    (e_ident hdr 0 mem ≡ 0x7f)
    × ((e_ident hdr 1 mem ≡ b'E') × ((e_ident hdr 2 mem ≡ b'L') × (e_ident hdr 3 mem ≡ b'F')))

abbrev pub IsSupported : ℕ → (ℕ → ℕ) → Type 0
IsSupported hdr mem =
    (e_ident hdr 4 mem ≡ 2)
    × ((e_ident hdr 5 mem ≡ 1)
        × ((e_machine hdr mem ≡ 62) × ((e_type hdr mem ≡ 2) ⊎ (e_type hdr mem ≡ 3))))

-- A 64-bit little-endian executable for x86-64 at `hdr`.
abbrev pub IsExecutable : ℕ → (ℕ → ℕ) → Type 0
IsExecutable hdr mem = IsElf hdr mem × IsSupported hdr mem

-- A check that says no prints one message at most, and changes nothing else.
abbrev pub Refuses : Machine → Machine → Type 0
Refuses m m' = (m' ≡ m) ⊎ ((message : List ℕ) × (m' ≡ kprint message m))

-- How a check of `P` ends.
abbrev Checks : Type 0 → Machine → Bool × Machine → Type 0
Checks P m r = ((r ≡ (true, m)) × P) ⊎ ((r.0 ≡ false) × (¬ P) × Refuses m r.1)

-- A test of a number before the other checks.
test-Checks :
    {Q : Type 0}
    → (a b : ℕ) (message : List ℕ) (next : Machine → Bool × Machine) (m : Machine)
    → Checks Q m (next m)
    → Checks ((a ≡ b) × Q) m (test (not (a == b)) message next m)
test-Checks a b message next m rest = elim (Bool-cases (a == b)) [
  | inr wrong ↦
      inr (rw wrong refl, (λ p. absurd (ground (arith, p.0))), inr (message, rw wrong refl))
  | inl right ↦
      let e : a ≡ b = (==_iff a b).0 right in
      elim rest [
        | inl (r, q) ↦ inl (rw right r, (e, q))
        | inr (r, not_q, refused) ↦ inr (rw right r, (λ p. not_q p.1), rw right refused)
      ]
]

-- The last test, alone.
last-Checks :
    (a b : ℕ) (message : List ℕ) (m : Machine)
    → Checks (a ≡ b) m (test (not (a == b)) message (λ m. (true, m)) m)
last-Checks a b message m = elim (Bool-cases (a == b)) [
  | inr wrong ↦ inr (rw wrong refl, (λ p. absurd (ground (arith, p))), inr (message, rw wrong refl))
  | inl right ↦ inl (rw right refl, (==_iff a b).0 right)
]

type-Checks :
    (t : ℕ) (message : List ℕ) (m : Machine)
    → Checks ((t ≡ 2) ⊎ (t ≡ 3)) m (test (not (t == 2) && not (t == 3)) message (λ m. (true, m)) m)
type-Checks t message m = elim (Bool-cases (t == 2)) [
  | inl two ↦ inl (rw two refl, inl ((==_iff t 2).0 two))
  | inr not_two ↦ elim (Bool-cases (t == 3)) [
    | inl three ↦ inl (rw (not_two, three) refl, inr ((==_iff t 3).0 three))
    | inr not_three ↦ inr (
      rw (not_two, not_three) refl,
      (λ p. elim p [ inl e ↦ absurd (ground (arith, e)) | inr e ↦ absurd (ground (arith, e)) ]),
      inr (message, rw (not_two, not_three) refl),
    )
  ]
]

elf_check_file-Checks :
    (hdr : ℕ) (m : Machine) → hdr ≢ 0 → Checks (IsElf hdr m.mem) m (elf_check_file hdr m)
unfolding elf_check_file
elf_check_file-Checks hdr m there =
    let third =
      test (not (e_ident hdr 3 m.mem == b'F')) (codes "ELF Header Error: MAG3\n")
        (λ m. (true, m)) in
    let second =
      test (not (e_ident hdr 2 m.mem == b'L')) (codes "ELF Header Error: MAG2\n") third in
    let first =
      test (not (e_ident hdr 1 m.mem == b'E')) (codes "ELF Header Error: MAG1\n") second in
    rw (==_ne hdr 0 there) (
      test-Checks (e_ident hdr 0 m.mem) 0x7f (codes "ELF Header Error: MAG0\n") first m (
        test-Checks (e_ident hdr 1 m.mem) b'E' (codes "ELF Header Error: MAG1\n") second m (
          test-Checks (e_ident hdr 2 m.mem) b'L' (codes "ELF Header Error: MAG2\n") third m
            (last-Checks (e_ident hdr 3 m.mem) b'F' (codes "ELF Header Error: MAG3\n") m))))

supported-Checks :
    (hdr : ℕ) (m : Machine) (r : Bool × Machine)
    → elf_check_file hdr m ≡ r
    → Checks (IsElf hdr m.mem) m r
    → Checks (IsExecutable hdr m.mem) m (elf_check_supported hdr m)
unfolding elf_check_supported
supported-Checks hdr m r e (inr (no_elf, not_elf, refused)) =
    inr (rw (e, no_elf) refl, (λ p. not_elf p.0), rw (e, no_elf) refused)
supported-Checks hdr m r e (inl (elf, is_elf)) =
    let third =
      test (not (e_type hdr m.mem == 2) && not (e_type hdr m.mem == 3))
        (codes "ELF Error: Not Executable\n") (λ m. (true, m)) in
    let second = test (not (e_machine hdr m.mem == 62)) (codes "ELF Error: Not x86-64\n") third in
    let first =
      test (not (e_ident hdr 5 m.mem == 1)) (codes "ELF Error: Not Little Endian\n") second in
    let rest = test-Checks (e_ident hdr 4 m.mem) 2 (codes "ELF Error: Not 64-bit\n") first m (
      test-Checks (e_ident hdr 5 m.mem) 1 (codes "ELF Error: Not Little Endian\n") second m (
        test-Checks (e_machine hdr m.mem) 62 (codes "ELF Error: Not x86-64\n") third m
          (type-Checks (e_type hdr m.mem) (codes "ELF Error: Not Executable\n") m))) in
    rw (e ∙ elf) (elim rest [
      | inl (r, q) ↦ inl (r, (is_elf, q))
      | inr (r, not_q, refused) ↦ inr (r, (λ p. not_q p.1), refused)
    ])

-- At an address that is not null, `elf_check_supported` accepts exactly a 64-bit little-endian
-- executable for x86-64, without any effect; any other file it refuses, and prints one message at most.
pub elf_check_supported_iff :
    (hdr : ℕ) (m : Machine)
    → hdr ≢ 0
    → ((elf_check_supported hdr m ≡ (true, m)) × IsExecutable hdr m.mem)
      ⊎ (((elf_check_supported hdr m).0 ≡ false)
          × (¬ IsExecutable hdr m.mem)
          × Refuses m (elf_check_supported hdr m).1)
elf_check_supported_iff hdr m there =
    supported-Checks hdr m (elf_check_file hdr m) refl (elf_check_file-Checks hdr m there)
