-- ===== src/Keyboard/Tests.antt =====
-- The theorems about src/drivers/keyboard.c at a short line.
use os_eojin.Base.{ℕ, ◌≤◌, ◌≡◌, ◌==◌, if◌then◌else◌, refl, false, codes, arith}
use os_eojin.Keyboard.{Keyboard, keyboard_handler, enter, press}
use os_eojin.Keyboard.Line.{Holds, edited, after_key, keyboard_handler-Holds}

abbrev typed : Keyboard
typed = record {
  is_shift = false;
  key_buffer = λ i. if i == 0 then b'l' else if i == 1 then b's' else 0;
  buffer_index = 2;
}

typed-Holds : Holds (codes "ls") typed
typed-Holds = record { text = (omega arith, refl, (omega arith, refl, refl)); count = refl }

tests_letter : after_key 0x1e false (codes "ls") ≡ codes "lsa"
unfolding after_key edited
tests_letter = refl

tests_backspace : after_key 0x0e false (codes "ls") ≡ codes "l"
unfolding after_key edited
tests_backspace = refl

keyboard_handler-Holds_example :
    Holds (after_key 0x0e false (codes "ls")) (keyboard_handler 0x0e typed).1
    × ((j : ℕ) → 256 ≤ j → (keyboard_handler 0x0e typed).1.key_buffer j ≡ typed.key_buffer j)
keyboard_handler-Holds_example =
    keyboard_handler-Holds 0x0e typed (codes "ls") (omega arith) typed-Holds

enters : (keyboard_handler 0x1c typed).0 ≡ enter typed.key_buffer
unfolding keyboard_handler press
enters = refl
