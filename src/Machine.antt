-- ===== src/Machine.antt =====
-- What every part of the kernel shares: the identity-mapped physical memory, the words of the PMM's
-- bitmap (src/kernel/pmm.c keeps them at 0x200000, inside the first 32MB that it reserves), and the
-- messages printed so far. Memory functions of src/kernel/utils.c.
pub mod Bytes
use os_eojin.Base.{
  ℕ, zero, suc, ◌+◌, ◌-◌, ◌*◌, ◌/◌, ◌%◌, ◌^◌, Bool, List, [], ◌∷◌, ◌++◌, ltb, leb, ◌&&◌,
  if◌then◌else◌, ◌==◌,
}

pub record Machine : Type 0 where
  -- byte at a physical address
  pub mem : ℕ → ℕ
  -- 32-bit word of `uint32_t* bitmap`
  pub bitmap : ℕ → ℕ
  pub total_blocks : ℕ
  -- in bytes
  pub bitmap_size : ℕ
  -- one entry for each call of `kprint`
  pub console : List (List ℕ)

abbrev pub kprint : List ℕ → Machine → Machine
kprint message m = record m { console = m.console ++ (message ∷ []) }

-- A pointer or a 64-bit sum.
abbrev pub u64 : ℕ → ℕ
u64 n = n % 2 ^ 64

-- The bytes of `[dest, dest + count)` become `val`.
abbrev pub fill : ℕ → ℕ → ℕ → (ℕ → ℕ) → ℕ → ℕ
fill dest val count mem a = if leb dest a && ltb a (dest + count) then val % 256 else mem a

abbrev pub store_byte : ℕ → ℕ → (ℕ → ℕ) → ℕ → ℕ
store_byte dest v mem a = if dest == a then v else mem a

-- The loop of `memset`, `count` rounds from address `ptr` on.
unfoldable pub memset : ℕ → ℕ → ℕ → (ℕ → ℕ) → ℕ → ℕ
memset ptr val zero mem = mem
memset ptr val (suc count) mem = memset (ptr + 1) val count (store_byte ptr (val % 256) mem)

-- The loop of `memcpy`: bytes are copied upwards, each read after the writes before it.
unfoldable pub memcpy : ℕ → ℕ → ℕ → (ℕ → ℕ) → ℕ → ℕ
memcpy dest source zero mem = mem
memcpy dest source (suc nbytes) mem =
    memcpy (dest + 1) (source + 1) nbytes (store_byte dest (mem source) mem)

-- A little-endian number of `n` bytes.
unfoldable pub load : ℕ → ℕ → (ℕ → ℕ) → ℕ
load zero a mem = 0
load (suc n) a mem = mem a + 256 * load n (a + 1) mem

unfoldable pub store : ℕ → ℕ → ℕ → (ℕ → ℕ) → ℕ → ℕ
store zero a v mem = mem
store (suc n) a v mem = store n (a + 1) (v / 256) (store_byte a (v % 256) mem)

abbrev pub read64 : ℕ → (ℕ → ℕ) → ℕ
read64 a mem = load 8 a mem

abbrev pub write64 : ℕ → ℕ → (ℕ → ℕ) → ℕ → ℕ
write64 a v mem = store 8 a v mem
