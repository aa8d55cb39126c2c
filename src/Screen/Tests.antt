-- ===== src/Screen/Tests.antt =====
-- The theorems about src/drivers/screen.c at an empty screen.
use os_eojin.Base.{◌%◌, ◌≡◌, refl, arith, codes, if◌then◌else◌, ◌==◌}
use os_eojin.Machine.{store_byte}
use os_eojin.Screen.{Screen, white_on_black, kprint, kprint_backspace, clear_screen}
use os_eojin.Screen.Terminal.{Terminal, Shows, OnlyScreen, type_text, kprint-Shows}
use os_eojin.Screen.Erase.{kprint_backspace-Shows}

-- The cursor stands in the last column of the last line.
abbrev screen : Screen
screen = record {
  mem = λ a. if a % 2 == 0 then b' ' else white_on_black;
  selected = 0;
  register = λ r. if r == 14 then 7 else 207;
}

abbrev terminal : Terminal
terminal = record { cells = λ i. b' '; cursor = 1999 }

screen-Shows : Shows screen terminal
screen-Shows = record {
  inside = omega arith;
  high = refl;
  low = refl;
  shown = record { chars = λ i less. ground arith; colours = λ i less. ground arith };
}

kprint-Shows_example :
    Shows (kprint (codes "ok\n") screen) (type_text (codes "ok\n") terminal)
    × OnlyScreen screen.mem (kprint (codes "ok\n") screen).mem
kprint-Shows_example = kprint-Shows (codes "ok\n") screen terminal screen-Shows

-- It scrolled twice.
scrolled : (type_text (codes "ok\n") terminal).cursor ≡ 1920
unfolding type_text
scrolled = refl

kprint_backspace-Shows_example :
    Shows
      (kprint_backspace screen)
      (record { cells = store_byte 1998 b' ' (λ i. b' '); cursor = 1998 })
    × Shows (clear_screen screen) (record { cells = λ i. b' '; cursor = 0 })
    × OnlyScreen screen.mem (kprint_backspace screen).mem
    × OnlyScreen screen.mem (clear_screen screen).mem
kprint_backspace-Shows_example = kprint_backspace-Shows screen terminal screen-Shows
