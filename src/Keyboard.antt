-- ===== src/Keyboard.antt =====
-- src/drivers/keyboard.c: the line that is typed. `user_input`, which gets the line, belongs to the
-- shell and does not touch this state; what the handler does outside is its effect.
pub mod Line
mod Tests
use os_eojin.Base.{
  ℕ, zero, suc, ◌+◌, ◌-◌, ◌/◌, ◌%◌, Bool, true, false, not, ◌&&◌, ◌||◌, ltb, leb, ◌==◌,
  if◌then◌else◌, codes, List, [], ◌∷◌, ◌++◌, get_or, replicate,
}

pub record Keyboard : Type 0 where
  pub is_shift : Bool
  -- the bytes of `key_buffer`; those from 256 on lie behind the array
  pub key_buffer : ℕ → ℕ
  pub buffer_index : ℕ

pub data Effect : Type 0 where
  nothing : Effect
  -- `kprint` of one character
  echo : ℕ → Effect
  -- `kprint_backspace`
  erase : Effect
  -- a new line on the screen and `user_input` of the buffer
  enter : (ℕ → ℕ) → Effect

abbrev pub sc_max : ℕ
sc_max = 57

abbrev pub ascii_low : List ℕ
ascii_low =
    0
    ∷ 0
    ∷ (codes "1234567890-="
        ++ (0
            ∷ 0
            ∷ (codes "qwertyuiop[]"
                ++ (0
                    ∷ 0
                    ∷ (codes "asdfghjkl;'`"
                        ++ (0 ∷ 92 ∷ (codes "zxcvbnm,./" ++ (0 ∷ b'*' ∷ 0 ∷ b' ' ∷ []))))))))

abbrev pub ascii_shift : List ℕ
ascii_shift =
    0
    ∷ 0
    ∷ (codes "!@#$%^&*()_+"
        ++ (0
            ∷ 0
            ∷ (codes "QWERTYUIOP{}"
                ++ (0
                    ∷ 0
                    ∷ (codes "ASDFGHJKL:"
                        ++ (34
                            ∷ b'~'
                            ∷ 0
                            ∷ b'|'
                            ∷ (codes "ZXCVBNM<>?" ++ (0 ∷ b'*' ∷ 0 ∷ b' ' ∷ []))))))))

abbrev pub letter_of : Bool → ℕ → ℕ
letter_of shift scancode =
    if shift then get_or ascii_shift scancode 0 else get_or ascii_low scancode 0

abbrev pub write : ℕ → ℕ → (ℕ → ℕ) → ℕ → ℕ
write i c buffer j = if i == j then c else buffer j

-- The handler behind its tests for shift, releases and the range: a letter, backspace or enter.
unfoldable pub press : ℕ → ℕ → Keyboard → Effect × Keyboard
press letter scancode k =
    let i = k.buffer_index in
    let typed : Keyboard = record k {
      key_buffer = write (i + 1) 0 (write i letter k.key_buffer);
      buffer_index = i + 1;
    } in
    let erased : Keyboard = record k {
      key_buffer = write (i - 1) 0 k.key_buffer;
      buffer_index = i - 1;
    } in
    let emptied : Keyboard = record k { key_buffer = write 0 0 k.key_buffer; buffer_index = 0 } in
    if not (letter == 0)
    then (echo letter, typed)
    else if scancode == 0x0e
    then (if ltb 0 i then (erase, erased) else (nothing, k))
    else if scancode == 0x1c
    then (enter k.key_buffer, emptied)
    else (nothing, k)

-- The handler for the scancode read from port 0x60.
unfoldable pub keyboard_handler : ℕ → Keyboard → Effect × Keyboard
keyboard_handler scancode k =
    if (scancode == 0x2a) || (scancode == 0x36)
    then (nothing, record k { is_shift = true })
    else if (scancode == 0xaa) || (scancode == 0xb6)
    then (nothing, record k { is_shift = false })
    else if not (scancode / 128 % 2 == 0)
    then (nothing, k)
    else if ltb sc_max scancode
    then (nothing, k)
    else press (letter_of k.is_shift scancode) scancode k
