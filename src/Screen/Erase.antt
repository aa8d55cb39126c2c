-- ===== src/Screen/Erase.antt =====
-- `kprint_backspace` and `clear_screen` of src/drivers/screen.c on a terminal.
use os_eojin.Base.{ℕ, ◌+◌, ◌-◌, ◌*◌, ◌≡◌, refl, arith, ap, ◌∙◌, sym, subst}
use os_eojin.Machine.{store_byte}
use os_eojin.Screen.{
  Screen, video_address, white_on_black, get_cursor_offset, set_cursor_offset, kprint_backspace,
  clear_screen, blank_cells,
}
use os_eojin.Screen.Scroll.{blank_cells_lem}
use os_eojin.Screen.Terminal.{
  Terminal, Shows, OnlyScreen, get_cursor_offset_lem, set_cursor_offset-Shows, written,
  written-ShowsCells,
}

back_at :
    (n : ℕ) (s : Screen)
    → get_cursor_offset s ≡ (2 * n, record s { selected = 15 })
    → kprint_backspace s ≡ (
        let s' = set_cursor_offset (2 * (n - 1)) (record s { selected = 15 }) in
        record s' { mem = written (n - 1) b' ' s'.mem })
unfolding kprint_backspace
back_at n s e = let before : 2 * n - 2 ≡ 2 * (n - 1) = omega arith in rw (e, before) refl

back :
    (s : Screen) (t : Terminal)
    → Shows s t
    → Shows
        (kprint_backspace s)
        (record { cells = store_byte (t.cursor - 1) b' ' t.cells; cursor = t.cursor - 1 })
unfolding set_cursor_offset
back s t shows =
    let moved =
      set_cursor_offset-Shows (t.cursor - 1) (record s { selected = 15 }) t.cells
        (omega (arith, shows.inside)) shows.shown in
    subst
      (λ s'.
        Shows s' (record { cells = store_byte (t.cursor - 1) b' ' t.cells; cursor = t.cursor - 1 }))
      (sym (back_at t.cursor s (get_cursor_offset_lem s t shows)))
      (record {
        inside = moved.inside;
        high = moved.high;
        low = moved.low;
        shown = written-ShowsCells (t.cursor - 1) b' ' s.mem t.cells shows.shown;
      })

back-OnlyScreen :
    (s : Screen) (t : Terminal) → Shows s t → OnlyScreen s.mem (kprint_backspace s).mem
unfolding set_cursor_offset
back-OnlyScreen s t shows a out =
    ap (λ s'. s'.mem a) (back_at t.cursor s (get_cursor_offset_lem s t shows))
    ∙ ground (arith, shows.inside, out)

clear : (s : Screen) → Shows (clear_screen s) (record { cells = λ i. b' '; cursor = 0 })
unfolding clear_screen
clear s =
    set_cursor_offset-Shows 0
      (record s { mem = blank_cells 2000 video_address white_on_black s.mem }) (λ i. b' ')
      (omega arith)
      (record {
        chars = λ i less.
            blank_cells_lem 2000 video_address white_on_black (video_address + 2 * i) s.mem
            ∙ ground arith;
        colours = λ i less.
            blank_cells_lem 2000 video_address white_on_black (video_address + (2 * i + 1)) s.mem
            ∙ ground arith;
      })

clear-OnlyScreen : (s : Screen) → OnlyScreen s.mem (clear_screen s).mem
unfolding clear_screen set_cursor_offset
clear-OnlyScreen s a out =
    blank_cells_lem 2000 video_address white_on_black a s.mem ∙ ground (arith, out)

-- From a screen that shows a terminal `kprint_backspace` moves the cursor back by one character, unless it is
-- at the start, and leaves a blank there; and `clear_screen` leaves an empty terminal there.
-- Neither changes a byte outside video memory.
pub kprint_backspace-Shows :
    (s : Screen) (t : Terminal)
    → Shows s t
    → Shows
        (kprint_backspace s)
        (record { cells = store_byte (t.cursor - 1) b' ' t.cells; cursor = t.cursor - 1 })
      × Shows (clear_screen s) (record { cells = λ i. b' '; cursor = 0 })
      × OnlyScreen s.mem (kprint_backspace s).mem
      × OnlyScreen s.mem (clear_screen s).mem
kprint_backspace-Shows s t shows =
    (back s t shows, clear s, back-OnlyScreen s t shows, clear-OnlyScreen s)
