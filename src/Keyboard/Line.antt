-- ===== src/Keyboard/Line.antt =====
-- The typed line of src/drivers/keyboard.c as a list of characters.
use os_eojin.Base.{
  ℕ, suc, ◌+◌, ◌-◌, ◌/◌, ◌%◌, ◌<◌, ◌≤◌, ◌≡◌, ◌≢◌, refl, Bool, true, false, not, ◌||◌, ltb, ◌==◌,
  if◌then◌else◌, List, [], ◌∷◌, ◌++◌, length, arith, ap, sym, ==_ne, ==_iff, Bool-cases, inl, inr,
  subst,
}
use os_eojin.Keyboard.{Keyboard, enter, press, keyboard_handler, letter_of, write, sc_max}

-- From index `i` on the buffer holds these characters and a closing 0.
abbrev pub Reads : (ℕ → ℕ) → ℕ → List ℕ → Type 0
Reads buffer i [] = buffer i ≡ 0
Reads buffer i (c ∷ line) = (c ≢ 0) × (buffer i ≡ c) × Reads buffer (i + 1) line

-- The buffer is the C string of the line.
pub record Holds (line : List ℕ) (k : Keyboard) : Type 0 where
  pub text : Reads k.key_buffer 0 line
  pub count : k.buffer_index ≡ length line

abbrev pub all_but_last : List ℕ → List ℕ
all_but_last [] = []
all_but_last (c ∷ []) = []
all_but_last (c ∷ d ∷ line) = c ∷ all_but_last (d ∷ line)

-- What a key does to the line.
unfoldable pub edited : ℕ → ℕ → List ℕ → List ℕ
edited letter scancode line =
    if not (letter == 0)
    then line ++ (letter ∷ [])
    else if scancode == 0x0e
    then all_but_last line
    else if scancode == 0x1c
    then []
    else line

Reads-write_behind :
    (buffer : ℕ → ℕ) (i n c : ℕ) (line : List ℕ)
    → n ≡ i + length line
    → c ≢ 0
    → Reads buffer i line
    → Reads (write (n + 1) 0 (write n c buffer)) i (line ++ (c ∷ []))
Reads-write_behind buffer i n c [] e some reads = (some, ground arith, ground arith)
Reads-write_behind buffer i n c (d ∷ line) e some reads = (
  reads.0,
  ground (arith, reads.1),
  Reads-write_behind buffer (i + 1) n c line (omega arith) some reads.2,
)

Reads-write_last :
    (buffer : ℕ → ℕ) (i n d : ℕ) (line : List ℕ)
    → n ≡ i + length line
    → Reads buffer i (d ∷ line)
    → Reads (write n 0 buffer) i (all_but_last (d ∷ line))
Reads-write_last buffer i n d [] e reads = ground arith
Reads-write_last buffer i n d (c ∷ line) e reads = (
  reads.0,
  ground (arith, reads.1),
  Reads-write_last buffer (i + 1) n c line (omega arith) reads.2,
)

length-all_but_last : (d : ℕ) (line : List ℕ) → length (all_but_last (d ∷ line)) ≡ length line
length-all_but_last d [] = refl
length-all_but_last d (c ∷ line) = ap suc (length-all_but_last c line)

length-snoc : (line : List ℕ) (c : ℕ) → length (line ++ (c ∷ [])) ≡ length line + 1
length-snoc [] c = refl
length-snoc (d ∷ line) c = omega (arith, length-snoc line c)

==_false : (a b : ℕ) → (a == b) ≡ false → a ≢ b
==_false a b h = ground arith

-- A state with the line, and nothing written behind the array.
abbrev Kept : List ℕ → (ℕ → ℕ) → Keyboard → Type 0
Kept line before k = Holds line k × ((j : ℕ) → 256 ≤ j → k.key_buffer j ≡ before j)

press-letter :
    (letter scancode : ℕ) (k : Keyboard) (line : List ℕ)
    → letter ≢ 0
    → length line < 255
    → Holds line k
    → Kept (edited letter scancode line) k.key_buffer (press letter scancode k).1
unfolding press edited
press-letter letter scancode k line some short h = rw (==_ne letter 0 some) (
  record {
    text =
        Reads-write_behind k.key_buffer 0 k.buffer_index letter line (omega (arith, h.count)) some
          h.text;
    count = omega (arith, h.count, length-snoc line letter);
  },
  λ j far. ground (arith, h.count),
)

press-backspace :
    (k : Keyboard) (line : List ℕ)
    → length line < 255
    → Holds line k
    → Kept (edited 0 0x0e line) k.key_buffer (press 0 0x0e k).1
unfolding press edited
press-backspace k [] short h =
    let e : k.buffer_index ≡ 0 = h.count in
    rw e (record { text = h.text; count = refl }, λ j far. refl)
press-backspace k (d ∷ line) short h =
    let e : ltb 0 k.buffer_index ≡ true = ground (arith, h.count) in
    rw e (
      record {
        text =
            Reads-write_last k.key_buffer 0 (k.buffer_index - 1) d line (omega (arith, h.count))
              h.text;
        count = omega (arith, h.count, length-all_but_last d line);
      },
      λ j far. ground (arith, h.count),
    )

press-Kept :
    (letter scancode : ℕ) (k : Keyboard) (line : List ℕ)
    → length line < 255
    → Holds line k
    → Kept (edited letter scancode line) k.key_buffer (press letter scancode k).1
unfolding press edited
press-Kept letter scancode k line short h = elim (Bool-cases (letter == 0)) [
  | inr some ↦ press-letter letter scancode k line (==_false letter 0 some) short h
  | inl silent ↦ elim (Bool-cases (scancode == 0x0e)) [
    | inl back ↦
        let e : letter ≡ 0 = (==_iff letter 0).0 silent in
        let e' : scancode ≡ 0x0e = (==_iff scancode 0x0e).0 back in
        subst (λ l. Kept (edited l scancode line) k.key_buffer (press l scancode k).1) (sym e)
          (subst (λ s. Kept (edited 0 s line) k.key_buffer (press 0 s k).1) (sym e')
            (press-backspace k line short h))
    | inr other ↦ elim (Bool-cases (scancode == 0x1c)) [
      | inl new_line ↦
          rw (silent, other, new_line) (record { text = refl; count = refl }, λ j far. ground arith)
      | inr none' ↦ rw (silent, other, none') (h, λ j far. refl)
    ]
  ]
]

-- The line that `user_input` gets is the typed one.
press-enter :
    (letter scancode : ℕ) (k : Keyboard) (b : ℕ → ℕ)
    → (press letter scancode k).0 ≡ enter b
    → (k.key_buffer ≡ b) × (scancode ≡ 0x1c) × ((press letter scancode k).1.buffer_index ≡ 0)
unfolding press
press-enter letter scancode k b e = (ground (arith, e), ground (arith, e), ground (arith, e))

-- The line after a key: shift, a release and a key out of range leave it.
unfoldable pub after_key : ℕ → Bool → List ℕ → List ℕ
after_key scancode shift line =
    if (scancode == 0x2a) || (scancode == 0x36)
    then line
    else if ltb sc_max scancode
    then line
    else edited (letter_of shift scancode) scancode line

-- While the line has less than 255 characters, a scancode edits it by one letter, one backspace or one
-- enter, or leaves it; the buffer stays the C string of the line, and no byte behind the array is
-- written.
pub keyboard_handler-Holds :
    (scancode : ℕ) (k : Keyboard) (line : List ℕ)
    → length line < 255
    → Holds line k
    → Holds (after_key scancode k.is_shift line) (keyboard_handler scancode k).1
      × ((j : ℕ) → 256 ≤ j → (keyboard_handler scancode k).1.key_buffer j ≡ k.key_buffer j)
unfolding keyboard_handler after_key
keyboard_handler-Holds scancode k line short h =
    let pressed = press-Kept (letter_of k.is_shift scancode) scancode k line short h in
    elim (Bool-cases ((scancode == 0x2a) || (scancode == 0x36))) [
      | inl down ↦ rw down (record { text = h.text; count = h.count }, λ j far. refl)
      | inr other ↦ elim (Bool-cases ((scancode == 0xaa) || (scancode == 0xb6))) [
        | inl up ↦
            let far' : ltb sc_max scancode ≡ true = ground arith in
            rw (other, up, far') (record { text = h.text; count = h.count }, λ j far. refl)
        | inr key ↦ elim (Bool-cases (scancode / 128 % 2 == 0)) [
          | inr release ↦
              let far' : ltb sc_max scancode ≡ true = ground arith in
              rw (other, key, release, far') (h, λ j far. refl)
          | inl make ↦ elim (Bool-cases (ltb sc_max scancode)) [
            | inl out ↦ rw (other, key, make, out) (h, λ j far. refl)
            | inr inside ↦ rw (other, key, make, inside) pressed
          ]
        ]
      ]
    ]

handler-enter :
    (scancode : ℕ) (k : Keyboard) (b : ℕ → ℕ)
    → (keyboard_handler scancode k).0 ≡ enter b
    → (k.key_buffer ≡ b) × (scancode ≡ 0x1c) × ((keyboard_handler scancode k).1.buffer_index ≡ 0)
unfolding keyboard_handler
handler-enter scancode k b e = elim (Bool-cases ((scancode == 0x2a) || (scancode == 0x36))) [
  | inl down ↦ cc
  | inr other ↦ elim (Bool-cases ((scancode == 0xaa) || (scancode == 0xb6))) [
    | inl up ↦ cc
    | inr key ↦ elim (Bool-cases (scancode / 128 % 2 == 0)) [
      | inr release ↦ cc
      | inl make ↦ elim (Bool-cases (ltb sc_max scancode)) [
        | inl out ↦ cc
        | inr inside ↦
            let pressed : (press (letter_of k.is_shift scancode) scancode k).0 ≡ enter b = cc in
            rw (other, key, make, inside)
              (press-enter (letter_of k.is_shift scancode) scancode k b pressed)
      ]
    ]
  ]
]

-- What a key hands to `user_input` is the C string of the typed line; the key is enter, and the line starts anew.
pub keyboard_handler-enter :
    (scancode : ℕ) (k : Keyboard) (line : List ℕ) (b : ℕ → ℕ)
    → Holds line k
    → (keyboard_handler scancode k).0 ≡ enter b
    → Reads b 0 line × (scancode ≡ 0x1c) × ((keyboard_handler scancode k).1.buffer_index ≡ 0)
keyboard_handler-enter scancode k line b h e =
    let (buffer, key, empty) = handler-enter scancode k b e in
    (subst (λ f. Reads f 0 line) buffer h.text, key, empty)
