-- ===== src/Idt.antt =====
-- src/kernel/idt.c: the gates of the interrupt table, a function of the vector.
use os_eojin.Base.{
  ℕ, ◌+◌, ◌*◌, ◌/◌, ◌%◌, ◌^◌, ◌<◌, ◌≡◌, ◌≢◌, refl, ◌==◌, if◌then◌else◌, arith, ==_ne,
}

-- `idt_gate_t`
pub record Gate : Type 0 where
  pub low_offset : ℕ
  pub sel : ℕ
  pub ist : ℕ
  pub flags : ℕ
  pub mid_offset : ℕ
  pub high_offset : ℕ
  pub reserved : ℕ

unfoldable pub set_idt_gate : (n handler flags : ℕ) → (ℕ → Gate) → ℕ → Gate
set_idt_gate n handler flags idt i =
    if n == i
    then record {
      low_offset = handler % 2 ^ 16;
      sel = 0x08;
      ist = 0;
      flags = flags;
      mid_offset = handler / 2 ^ 16 % 2 ^ 16;
      high_offset = handler / 2 ^ 32 % 2 ^ 32;
      reserved = 0;
    }
    else idt i

-- The handler that the processor calls through a gate.
abbrev pub handler_of : Gate → ℕ
handler_of g = g.low_offset + 2 ^ 16 * g.mid_offset + 2 ^ 32 * g.high_offset

-- A handler's address of 64 bits comes back from the gate that `set_idt_gate` writes, which selects the
-- kernel's code segment and has the flags that were given; no other gate changes.
pub set_idt_gate_lem :
    (n handler flags i : ℕ) (idt : ℕ → Gate)
    → handler < 2 ^ 64
    → let e = set_idt_gate n handler flags idt in
      (handler_of (e n) ≡ handler)
      × ((e n).sel ≡ 0x08)
      × ((e n).flags ≡ flags)
      × ((e n).ist ≡ 0)
      × (n ≢ i → e i ≡ idt i)
unfolding set_idt_gate
set_idt_gate_lem n handler flags i idt small =
    (ground arith, ground arith, ground arith, ground arith, λ ne. rw (==_ne n i ne) refl)
