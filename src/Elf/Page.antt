-- ===== src/Elf/Page.antt =====
-- What `elf_load_file` of src/kernel/elf.c writes into one page.
use os_eojin.Base.{
  ℕ, ◌+◌, ◌-◌, ◌*◌, ◌/◌, ◌%◌, ◌^◌, ◌≤◌, ◌<◌, ◌≡◌, ◌≢◌, refl, true, false, ◌⊎◌, inl, inr, ◌==◌, leb,
  ltb, ◌&&◌, if◌then◌else◌, arith, Bool-cases, ◌∙◌, ap,
}
use os_eojin.Machine.{memset, memcpy, u64}
use os_eojin.Machine.Bytes.{memset-fill, memcpy-copies}
use os_eojin.Elf.{Segment, copy_page}

-- The sums of the loader stay below 2^64, and the segment ends below 2^47, in the lower half.
pub record IsPlaced (file_buffer : ℕ) (s : Segment) : Type 0 where
  pub memory : s.p_vaddr + s.p_memsz ≤ 2 ^ 47
  pub data_end : s.p_vaddr + s.p_filesz < 2 ^ 64
  pub source : file_buffer + s.p_offset + s.p_filesz < 2 ^ 64

-- The byte at the address `x` of a loaded program: one of the file, or 0.
abbrev pub byte_at : ℕ → Segment → (ℕ → ℕ) → ℕ → ℕ
byte_at file_buffer s mem x =
    if leb s.p_vaddr x && ltb x (s.p_vaddr + s.p_filesz)
    then mem (file_buffer + s.p_offset + (x - s.p_vaddr))
    else 0

disjoint :
    (source n dest c : ℕ)
    → c * 4096 ≤ dest
    → dest + n ≤ c * 4096 + 4096
    → ((a : ℕ) → source ≤ a → a < source + n → a / 4096 ≢ c)
    → (dest + n ≤ source) ⊎ (source + n ≤ dest)
disjoint source n dest c lo hi apart = elim (Bool-cases (leb (dest + n) source)) [
  | inl above ↦ inl (ground arith)
  | inr not_above ↦ elim (Bool-cases (leb (source + n) dest)) [
    | inl below ↦ inr (ground arith)
    | inr not_below ↦ elim (Bool-cases (ltb source dest)) [
      | inl first ↦ absurd (apart dest (ground arith) (ground arith) (ground arith))
      | inr second ↦ absurd (apart source (ground arith) (ground arith) (ground arith))
    ]
  ]
]

module _ (file_buffer vaddr c : ℕ) (s : Segment) (mem : ℕ → ℕ) (placed : IsPlaced file_buffer s)
    (near : vaddr + 4096 < 2 ^ 64) (high : c * 4096 + 4096 < 2 ^ 64)
    (apart : (a : ℕ)
      → file_buffer + s.p_offset ≤ a
      → a < file_buffer + s.p_offset + s.p_filesz
      → a / 4096 ≢ c) where
  abbrev copy_start : ℕ
  copy_start = if ltb vaddr s.p_vaddr then s.p_vaddr else vaddr

  abbrev copy_end : ℕ
  copy_end =
      if ltb (s.p_vaddr + s.p_filesz) (vaddr + 4096) then s.p_vaddr + s.p_filesz else vaddr + 4096

  abbrev Copied : ℕ → ℕ → Type 0
  Copied start end = copy_page file_buffer s vaddr (c * 4096) mem ≡ (
      if ltb start end
      then memcpy (c * 4096 + (start - vaddr)) (file_buffer + (s.p_offset + (start - s.p_vaddr)))
          (end - start) (memset (c * 4096) 0 4096 mem)
      else memset (c * 4096) 0 4096 mem)

  copy_page_plain : Copied copy_start copy_end
  unfolding copy_page
  copy_page_plain =
      let e1 : u64 (s.p_vaddr + s.p_filesz) ≡ s.p_vaddr + s.p_filesz =
        omega (arith, placed.data_end) in
      let e2 : u64 (vaddr + 4096) ≡ vaddr + 4096 = omega arith in
      rw (e1, e2)
        (elim (Bool-cases (ltb copy_start copy_end)) [
          | inr none_left ↦ rw none_left refl
          | inl more ↦
              let within : copy_start - s.p_vaddr < s.p_filesz = ground (arith, more) in
              let e3 : u64 (s.p_offset + (copy_start - s.p_vaddr))
                  ≡ s.p_offset + (copy_start - s.p_vaddr) =
                omega (arith, within, placed.source) in
              let e4 : u64 (file_buffer + (s.p_offset + (copy_start - s.p_vaddr)))
                  ≡ file_buffer + (s.p_offset + (copy_start - s.p_vaddr)) =
                omega (arith, within, placed.source) in
              let e5 : u64 (c * 4096 + (copy_start - vaddr)) ≡ c * 4096 + (copy_start - vaddr) =
                ground (arith, more) in
              rw (more, e3, e4, e5) refl
        ])

  not_cleared :
      (a : ℕ)
      → a / 4096 ≢ c
      → (if leb (c * 4096) a && ltb a (c * 4096 + 4096) then 0 else mem a) ≡ mem a
  not_cleared a ne = ground (arith, ne)

  -- The start and the end of the bytes to copy.
  copy_range :
      (start end a : ℕ)
      → Copied start end
      → vaddr ≤ start
      → s.p_vaddr ≤ start
      → end ≤ vaddr + 4096
      → end ≤ s.p_vaddr + s.p_filesz
      → copy_page file_buffer s vaddr (c * 4096) mem a ≡ (
          if leb (c * 4096 + (start - vaddr)) a && ltb a (c * 4096 + (end - vaddr))
          then mem (file_buffer + s.p_offset + (a - c * 4096 + vaddr - s.p_vaddr))
          else if a / 4096 == c
          then 0
          else mem a)
  copy_range start end a e v p v' p' = elim (Bool-cases (ltb start end)) [
    | inr none_left ↦
        ap (λ f. f a) e ∙ rw none_left (memset-fill 4096 (c * 4096) 0 a mem ∙ ground arith)
    | inl more ↦
        ap (λ f. f a) e
        ∙ rw more (
            memcpy-copies (end - start) (c * 4096 + (start - vaddr))
              (file_buffer + (s.p_offset + (start - s.p_vaddr))) a (memset (c * 4096) 0 4096 mem)
              (disjoint (file_buffer + (s.p_offset + (start - s.p_vaddr))) (end - start)
                (c * 4096 + (start - vaddr)) c (omega arith) (ground arith)
                (λ b lo hi. apart b (omega arith) (ground arith)))
            ∙ elim (Bool-cases
                (leb (c * 4096 + (start - vaddr)) a && ltb a (c * 4096 + (end - vaddr)))) [
                  | inr out ↦
                      let out' : (leb (c * 4096 + (start - vaddr)) a
                            && ltb a (c * 4096 + (start - vaddr) + (end - start)))
                          ≡ false =
                        ground (arith, out) in
                      rw (out, out') (memset-fill 4096 (c * 4096) 0 a mem ∙ ground arith)
                  | inl within ↦
                      let within' : (leb (c * 4096 + (start - vaddr)) a
                            && ltb a (c * 4096 + (start - vaddr) + (end - start)))
                          ≡ true =
                        ground (arith, within) in
                      let at : file_buffer
                            + (s.p_offset + (start - s.p_vaddr))
                            + (a - (c * 4096 + (start - vaddr)))
                          ≡ file_buffer + s.p_offset + (a - c * 4096 + vaddr - s.p_vaddr) =
                        ground (arith, within) in
                      rw (within, within')
                        (ap (memset (c * 4096) 0 4096 mem) at
                          ∙ memset-fill 4096 (c * 4096) 0
                              (file_buffer + s.p_offset + (a - c * 4096 + vaddr - s.p_vaddr)) mem
                          ∙ not_cleared
                              (file_buffer + s.p_offset + (a - c * 4096 + vaddr - s.p_vaddr))
                              (apart (file_buffer + s.p_offset + (a - c * 4096 + vaddr - s.p_vaddr))
                                (omega arith) (ground (arith, within))))
                ])
  ]

  in_data :
      (a : ℕ)
      → (a / 4096 == c) ≡ true
      → (leb (c * 4096 + (copy_start - vaddr)) a && ltb a (c * 4096 + (copy_end - vaddr)))
        ≡ (leb s.p_vaddr (vaddr + a % 4096) && ltb (vaddr + a % 4096) (s.p_vaddr + s.p_filesz))
  in_data a here = ground (arith, here)

  -- Every byte of the page is that of the program, and no other byte changes.
  pub copy_page-byte_at :
      (a : ℕ)
      → copy_page file_buffer s vaddr (c * 4096) mem a
        ≡ (if a / 4096 == c then byte_at file_buffer s mem (vaddr + a % 4096) else mem a)
  copy_page-byte_at a =
      copy_range copy_start copy_end a copy_page_plain (ground arith) (ground arith) (ground arith)
        (ground arith)
      ∙ elim (Bool-cases (a / 4096 == c)) [
        | inr away ↦
            let out : (leb (c * 4096 + (copy_start - vaddr)) a
                  && ltb a (c * 4096 + (copy_end - vaddr)))
                ≡ false =
              ground (arith, away) in
            rw (away, out) refl
        | inl here ↦
            let at : a - c * 4096 + vaddr - s.p_vaddr ≡ vaddr + a % 4096 - s.p_vaddr =
              ground (arith, here) in
            let ends : (leb (c * 4096 + (copy_start - vaddr)) a
                  && ltb a (c * 4096 + (copy_end - vaddr)))
                ≡ (leb s.p_vaddr (vaddr + a % 4096)
                    && ltb (vaddr + a % 4096) (s.p_vaddr + s.p_filesz)) =
              in_data a here in
            rw (here, ends, at) refl
      ]
