-- ===== src/Screen.antt =====
-- src/drivers/screen.c: the text screen. Video memory is read and written by address; the controller
-- behind the ports 0x3d4 and 0x3d5 keeps in each register what was last written to it.
pub mod Scroll
pub mod Terminal
pub mod Erase
mod Tests
use os_eojin.Base.{
  ℕ, zero, suc, ◌+◌, ◌-◌, ◌*◌, ◌/◌, ◌%◌, Bool, true, false, ◌&&◌, List, [], ◌∷◌, ltb, leb, ◌==◌,
  if◌then◌else◌,
}
use os_eojin.Base.Int.{ℤ, pos, negsuc}
use os_eojin.Machine.{memcpy, store_byte}

pub record Screen : Type 0 where
  pub mem : ℕ → ℕ
  -- the register that port 0x3d5 reads and writes
  pub selected : ℕ
  pub register : ℕ → ℕ

abbrev pub video_address : ℕ
video_address = 0xb8000

abbrev pub max_rows : ℕ
max_rows = 25

abbrev pub max_cols : ℕ
max_cols = 80

abbrev pub white_on_black : ℕ
white_on_black = 0x0f

-- `outb(REG_SCREEN_CTRL, r)`
abbrev pub select : ℕ → Screen → Screen
select r s = record s { selected = r }

-- `outb(REG_SCREEN_DATA, v)`
abbrev pub write_register : ℕ → Screen → Screen
write_register v s = record s { register = store_byte s.selected v s.register }

-- `inb(REG_SCREEN_DATA)`
abbrev pub read_register : Screen → ℕ
read_register s = s.register s.selected

-- The offset, and the screen with another register selected.
unfoldable pub get_cursor_offset : Screen → ℕ × Screen
get_cursor_offset s =
    let s1 = select 14 s in
    let offset = read_register s1 * 256 in
    let s2 = select 15 s1 in ((offset + read_register s2) * 2, s2)

unfoldable pub set_cursor_offset : ℕ → Screen → Screen
set_cursor_offset offset s =
    let half = offset / 2 in
    write_register (half % 256) (select 15 (write_register (half / 256 % 256) (select 14 s)))

-- The loop that copies each row to the one above, `rows` rounds from row `i` on.
unfoldable pub copy_rows : ℕ → ℕ → (ℕ → ℕ) → ℕ → ℕ
copy_rows zero i mem = mem
copy_rows (suc rows) i mem = copy_rows rows (i + 1) (
    memcpy (video_address + (i - 1) * max_cols * 2) (video_address + i * max_cols * 2)
      (max_cols * 2) mem)

-- `count` cells from `a` on become blank.
unfoldable pub blank_cells : ℕ → ℕ → ℕ → (ℕ → ℕ) → ℕ → ℕ
blank_cells zero a attribute_byte mem = mem
blank_cells (suc count) a attribute_byte mem =
    blank_cells count (a + 2) attribute_byte
      (store_byte (a + 1) attribute_byte (store_byte a b' ' mem))

abbrev pub scroll : ℕ → (ℕ → ℕ) → ℕ → ℕ
scroll attribute_byte mem =
    blank_cells max_cols (video_address + (max_rows - 1) * max_cols * 2) attribute_byte
      (copy_rows (max_rows - 1) 1 mem)

abbrev pub screen_bytes : ℕ
screen_bytes = max_rows * max_cols * 2

-- The scrolling at the end of `print_char`, and the new cursor.
unfoldable pub finish_char : ℕ → ℕ → Screen → Screen
finish_char offset attribute_byte s =
    if leb screen_bytes offset
    then set_cursor_offset (offset - 2 * max_cols) (record s { mem = scroll attribute_byte s.mem })
    else set_cursor_offset offset s

-- Where `print_char` prints: at the cursor, if a coordinate is negative.
unfoldable pub place : ℤ → ℤ → Screen → ℕ × Screen
place (pos col) (pos row) s = ((row * max_cols + col) * 2, s)
place (pos col) (negsuc row) s = get_cursor_offset s
place (negsuc col) row s = get_cursor_offset s

unfoldable pub print_char : ℕ → ℤ → ℤ → ℕ → Screen → Screen
print_char c col row attribute s =
    let attribute_byte = if attribute == 0 then white_on_black else attribute in
    let (offset, s1) = place col row s in
    let (cursor, s2) = get_cursor_offset s1 in
    let rows = cursor / (2 * max_cols) in
    let written =
      store_byte (video_address + offset + 1) attribute_byte
        (store_byte (video_address + offset) c s1.mem) in
    if c == 10
    then finish_char ((rows + 1) * (2 * max_cols)) attribute_byte s2
    else finish_char (offset + 2) attribute_byte (record s1 { mem = written })

-- `if (col >= 0) col++;`
abbrev pub next_col : ℤ → ℤ
next_col (pos col) = pos (col + 1)
next_col (negsuc col) = negsuc col

-- The loop of `kprint_at` over the characters before the terminating 0.
unfoldable pub print_chars : List ℕ → ℤ → ℤ → Screen → Screen
print_chars [] col row s = s
print_chars (c ∷ message) col row s =
    let rest = print_chars message (next_col col) row (print_char c col row white_on_black s) in
    if c == 0 then s else rest

-- `if (col > 0 && row >= 0)`
abbrev pub start_at : ℤ → ℤ → Screen → Screen
start_at (pos col) (pos row) s =
    if ltb 0 col then set_cursor_offset ((row * max_cols + col) * 2) s else s
start_at (pos col) (negsuc row) s = s
start_at (negsuc col) row s = s

unfoldable pub kprint_at : List ℕ → ℤ → ℤ → Screen → Screen
kprint_at message col row s = print_chars message col row (start_at col row s)

abbrev pub kprint : List ℕ → Screen → Screen
kprint message s = kprint_at message (negsuc 0) (negsuc 0) s

-- `offset - 2` stops at 0 here, as the C code does.
unfoldable pub kprint_backspace : Screen → Screen
kprint_backspace s =
    let (cursor, s1) = get_cursor_offset s in
    let offset = cursor - 2 in
    let s2 = set_cursor_offset offset s1 in
    record s2 {
      mem =
          store_byte (video_address + offset + 1) 0x0f
            (store_byte (video_address + offset) b' ' s2.mem);
    }

unfoldable pub clear_screen : Screen → Screen
clear_screen s =
    set_cursor_offset 0
      (record s { mem = blank_cells (max_cols * max_rows) video_address white_on_black s.mem })
