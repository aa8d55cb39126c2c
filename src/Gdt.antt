-- ===== src/Gdt.antt =====
-- src/kernel/cpu/gdt.c: segment descriptors and the TSS. The table is a function of the index.
pub mod Encoding
use os_eojin.Base.{ℕ, ◌+◌, ◌-◌, ◌*◌, ◌/◌, ◌%◌, ◌^◌, ◌==◌, if◌then◌else◌}

-- `gdt_entry_t`
pub record Descriptor : Type 0 where
  pub limit_low : ℕ
  pub base_low : ℕ
  pub base_middle : ℕ
  pub access : ℕ
  pub granularity : ℕ
  pub base_high : ℕ

-- `tss_entry_t`: the two fields that are not 0.
pub record Tss : Type 0 where
  pub rsp0 : ℕ
  pub iomap_base : ℕ

pub record Gdt : Type 0 where
  pub gdt_entries : ℕ → Descriptor
  pub tss_entry : Tss

abbrev pub set_entry : ℕ → Descriptor → (ℕ → Descriptor) → ℕ → Descriptor
set_entry num e entries i = if num == i then e else entries i

-- The two halves of `granularity` share no bit, so `|` is `+`.
unfoldable pub set_gdt_gate : (num base limit access gran : ℕ) → (ℕ → Descriptor) → ℕ → Descriptor
set_gdt_gate num base limit access gran entries =
    set_entry num
      (record {
        limit_low = limit % 2 ^ 16;
        base_low = base % 2 ^ 16;
        base_middle = base / 2 ^ 16 % 2 ^ 8;
        access = access;
        granularity = limit / 2 ^ 16 % 2 ^ 4 + gran / 2 ^ 4 % 2 ^ 4 * 2 ^ 4;
        base_high = base / 2 ^ 24 % 2 ^ 8;
      })
      entries

-- A descriptor of 16 bytes, in two entries.
unfoldable pub set_tss_gate : (num base limit : ℕ) → (ℕ → Descriptor) → ℕ → Descriptor
set_tss_gate num base limit entries =
    let upper_base = base / 2 ^ 32 in
    set_entry (num + 1)
      (record {
        limit_low = upper_base % 2 ^ 16;
        base_low = upper_base / 2 ^ 16 % 2 ^ 16;
        base_middle = upper_base / 2 ^ 32 % 2 ^ 8;
        access = 0;
        granularity = 0;
        base_high = 0;
      })
      (set_gdt_gate num base limit 0x89 0 entries)

-- sizeof(tss_entry_t)
abbrev pub tss_size : ℕ
tss_size = 104

-- The table that `init_gdt` makes, with the TSS at `tss`; `gdt_flush` and `tss_flush` load it.
unfoldable pub init_gdt : (tss : ℕ) → Gdt → Gdt
init_gdt tss g = record {
  gdt_entries = set_tss_gate 5 tss (tss_size - 1) (
      set_gdt_gate 4 0 0xFFFFF 0xFA 0x20 (
        set_gdt_gate 3 0 0xFFFFF 0xF2 0 (
          set_gdt_gate 2 0 0xFFFFF 0x92 0
            (set_gdt_gate 1 0 0xFFFFF 0x9A 0x20 (set_gdt_gate 0 0 0 0 0 g.gdt_entries)))));
  tss_entry = record { rsp0 = 0; iomap_base = tss_size };
}

abbrev pub set_tss_rsp0 : ℕ → Gdt → Gdt
set_tss_rsp0 rsp g = record g { tss_entry = record (g.tss_entry) { rsp0 = rsp } }
