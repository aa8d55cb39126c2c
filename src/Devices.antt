-- ===== src/Devices.antt =====
-- src/drivers/timer.c and src/kernel/pic.c, as the bytes that they write to ports, and src/kernel/memory.c.
use os_eojin.Base.{
  ℕ, zero, suc, ◌+◌, ◌/◌, ◌%◌, ◌^◌, Option, none, some, List, [], ◌∷◌, ◌++◌, ◌==◌, if◌then◌else◌,
  codes,
}
use os_eojin.Machine.{Machine, kprint, load, read64}
use os_eojin.Utils.{hex_to_ascii}

-- Every `outb`, in order: port and byte.
abbrev pub Writes : Type 0
Writes = List (ℕ × ℕ)

pub record Timer : Type 0 where
  pub tick : ℕ
  pub ports : Writes
  pub machine : Machine

abbrev pub divisor : ℕ → ℕ
divisor freq = 1193180 / freq

-- `none` is the division by 0. A divisor above 65535 loses its upper bits.
unfoldable pub init_timer : ℕ → Timer → Option Timer
init_timer freq t =
    let low = divisor freq % 256 in
    let high = divisor freq / 256 % 256 in
    let started : Timer = record t {
      ports = t.ports ++ ((0x43, 0x36) ∷ (0x40, low) ∷ (0x40, high) ∷ []);
      machine = kprint (codes "Timer initialized.\n") t.machine;
    } in
    if freq == 0 then none else some started

-- `tick` is a `uint32_t`.
abbrev pub timer_handler : ℕ → ℕ
timer_handler tick = (tick + 1) % 2 ^ 32

-- The masks that it reads first are not used.
abbrev pub pic_remap : Writes → Writes
pic_remap ports =
    ports
    ++ ((0x20, 0x11)
        ∷ (0xa0, 0x11)
        ∷ (0x21, 0x20)
        ∷ (0xa1, 0x28)
        ∷ (0x21, 0x04)
        ∷ (0xa1, 0x02)
        ∷ (0x21, 0x01)
        ∷ (0xa1, 0x01)
        ∷ (0x21, 0xff)
        ∷ (0xa1, 0xff)
        ∷ [])

-- One entry of the memory map, at `entry`, of 24 bytes.
unfoldable pub print_entry : ℕ → Machine → Machine
print_entry entry m =
    let base = kprint (hex_to_ascii (read64 entry m.mem)) (kprint (codes "Base: ") m) in
    let size = kprint (hex_to_ascii (read64 (entry + 8) m.mem)) (kprint (codes " Length: ") base) in
    let kind = if load 4 (entry + 16) m.mem == 1 then codes "1 (Free)\n" else codes "Other\n" in
    kprint kind (kprint (codes " Type: ") size)

unfoldable pub print_entries : (count entry : ℕ) → Machine → Machine
print_entries zero entry m = m
print_entries (suc count) entry m = print_entries count (entry + 24) (print_entry entry m)

unfoldable pub print_memory_map : Machine → Machine
print_memory_map m =
    let entry_count = load 2 0x5000 m.mem in
    print_entries entry_count 0x5004 (
      kprint (codes "\n")
        (kprint (hex_to_ascii entry_count) (kprint (codes "Memory Map Entries: ") m)))
