-- ===== src/Gdt/Encoding.antt =====
-- Descriptors of src/kernel/cpu/gdt.c as the processor reads them.
use os_eojin.Base.{ℕ, ◌+◌, ◌*◌, ◌/◌, ◌%◌, ◌^◌, ◌<◌, ◌≡◌, ◌≢◌, refl, arith, ==_ne}
use os_eojin.Gdt.{Descriptor, set_gdt_gate, set_tss_gate}

-- The base and the limit that a descriptor of 8 bytes holds.
abbrev pub base_of : Descriptor → ℕ
base_of d = d.base_low + 2 ^ 16 * d.base_middle + 2 ^ 24 * d.base_high

abbrev pub limit_of : Descriptor → ℕ
limit_of d = d.limit_low + 2 ^ 16 * (d.granularity % 2 ^ 4)

-- The second 8 bytes of a system descriptor: bits 32 to 63 of the base, and reserved bits.
abbrev pub upper_of : Descriptor → ℕ
upper_of d = d.limit_low + 2 ^ 16 * d.base_low

abbrev pub reserved_of : Descriptor → ℕ
reserved_of d = d.base_middle + 2 ^ 8 * d.access + 2 ^ 16 * d.granularity + 2 ^ 24 * d.base_high

-- A base of 32 bits and a limit of 20 bits come back from the entry that `set_gdt_gate` writes, with the
-- access byte and the upper four bits of `gran`; no other entry changes.
pub set_gdt_gate_lem :
    (num base limit access gran i : ℕ) (entries : ℕ → Descriptor)
    → base < 2 ^ 32
    → limit < 2 ^ 20
    → let e = set_gdt_gate num base limit access gran entries in
      (base_of (e num) ≡ base)
      × (limit_of (e num) ≡ limit)
      × ((e num).access ≡ access)
      × ((e num).granularity / 2 ^ 4 ≡ gran / 2 ^ 4 % 2 ^ 4)
      × (num ≢ i → e i ≡ entries i)
unfolding set_gdt_gate
set_gdt_gate_lem num base limit access gran i entries small small' =
    (ground arith, ground arith, ground arith, ground arith, λ ne. rw (==_ne num i ne) refl)

-- A base of 64 bits comes back from the two entries that `set_tss_gate` writes, as does a limit of 20
-- bits; the reserved bits are 0, and no other entry changes.
pub set_tss_gate_lem :
    (num base limit i : ℕ) (entries : ℕ → Descriptor)
    → base < 2 ^ 64
    → limit < 2 ^ 20
    → let e = set_tss_gate num base limit entries in
      (base_of (e num) + 2 ^ 32 * upper_of (e (num + 1)) ≡ base)
      × (limit_of (e num) ≡ limit)
      × (reserved_of (e (num + 1)) ≡ 0)
      × (num ≢ i → num + 1 ≢ i → e i ≡ entries i)
unfolding set_tss_gate set_gdt_gate
set_tss_gate_lem num base limit i entries small small' = (
  ground arith,
  ground arith,
  ground arith,
  λ ne ne'. rw (==_ne num i ne, ==_ne (num + 1) i ne') refl,
)
