-- ===== src/Screen/Terminal.antt =====
-- src/drivers/screen.c implements a terminal of 25 lines of 80 characters.
use os_eojin.Base.{
  ℕ, ◌+◌, ◌-◌, ◌*◌, ◌/◌, ◌%◌, ◌≤◌, ◌<◌, ◌≡◌, refl, true, false, List, [], ◌∷◌, ltb, leb, ◌==◌,
  if◌then◌else◌, arith, inl, inr, Bool-cases, ap, ◌∙◌, sym, ◌⊎◌, subst,
}
use os_eojin.Base.Int.{negsuc}
use os_eojin.Machine.{store_byte}
use os_eojin.Screen.{
  Screen, video_address, white_on_black, get_cursor_offset, set_cursor_offset, finish_char, scroll,
  place, print_char, print_chars, kprint_at, kprint,
}
use os_eojin.Screen.Scroll.{scroll_lem, scroll_outside}

-- The characters, line by line, and the place of the next one.
pub record Terminal : Type 0 where
  pub cells : ℕ → ℕ
  pub cursor : ℕ

-- Behind the last line everything moves up by one line.
abbrev pub wrap : Terminal → Terminal
wrap t =
    if leb 2000 t.cursor
    then record {
      cells = λ i. if ltb i 1920 then t.cells (i + 80) else b' ';
      cursor = t.cursor - 80;
    }
    else t

abbrev pub type_char : ℕ → Terminal → Terminal
type_char c t =
    if c == 10
    then wrap (record t { cursor = (t.cursor / 80 + 1) * 80 })
    else wrap (record { cells = store_byte t.cursor c t.cells; cursor = t.cursor + 1 })

unfoldable pub type_text : List ℕ → Terminal → Terminal
type_text [] t = t
type_text (c ∷ message) t =
    let rest = type_text message (type_char c t) in if c == 0 then t else rest

-- The characters of the screen, white on black.
pub record ShowsCells (mem cells : ℕ → ℕ) : Type 0 where
  pub chars : (i : ℕ) → i < 2000 → mem (video_address + 2 * i) ≡ cells i
  pub colours : (i : ℕ) → i < 2000 → mem (video_address + (2 * i + 1)) ≡ white_on_black

pub record Shows (s : Screen) (t : Terminal) : Type 0 where
  pub inside : t.cursor < 2000
  pub high : s.register 14 ≡ t.cursor / 256
  pub low : s.register 15 ≡ t.cursor % 256
  pub shown : ShowsCells s.mem t.cells

abbrev pub OnlyScreen : (ℕ → ℕ) → (ℕ → ℕ) → Type 0
OnlyScreen mem mem' = (a : ℕ) → (a < video_address) ⊎ (video_address + 4000 ≤ a) → mem' a ≡ mem a

pub get_cursor_offset_lem :
    (s : Screen) (t : Terminal)
    → Shows s t
    → get_cursor_offset s ≡ (2 * t.cursor, record s { selected = 15 })
unfolding get_cursor_offset
get_cursor_offset_lem s t shows =
    ap (λ n. (n, record s { selected = 15 })) (omega (arith, shows.high, shows.low))

set_cursor_offset_high :
    (n : ℕ) (s : Screen) → n < 2000 → (set_cursor_offset (2 * n) s).register 14 ≡ n / 256
unfolding set_cursor_offset
set_cursor_offset_high n s small = ground arith

set_cursor_offset_low :
    (n : ℕ) (s : Screen) → n < 2000 → (set_cursor_offset (2 * n) s).register 15 ≡ n % 256
unfolding set_cursor_offset
set_cursor_offset_low n s small = ground arith

-- Moving the cursor shows the same characters.
pub set_cursor_offset-Shows :
    (n : ℕ) (s : Screen) (cells : ℕ → ℕ)
    → n < 2000
    → ShowsCells s.mem cells
    → Shows (set_cursor_offset (2 * n) s) (record { cells = cells; cursor = n })
unfolding set_cursor_offset
set_cursor_offset-Shows n s cells small shown = record {
  inside = small;
  high = set_cursor_offset_high n s small;
  low = set_cursor_offset_low n s small;
  shown = shown;
}

scroll-ShowsCells :
    (mem cells : ℕ → ℕ)
    → ShowsCells mem cells
    → ShowsCells (scroll white_on_black mem) (λ i. if ltb i 1920 then cells (i + 80) else b' ')
scroll-ShowsCells mem cells shown = record {
  chars = λ i less.
      scroll_lem white_on_black (2 * i) mem (omega arith) ∙ elim (Bool-cases (ltb i 1920)) [
        | inl upper ↦
            let e : 2 * i + 160 ≡ 2 * (i + 80) = omega arith in
            let upper' : ltb (2 * i) 3840 ≡ true = ground (arith, upper) in
            rw (upper, upper')
              (ap (λ o. mem (video_address + o)) e ∙ shown.chars (i + 80) (ground (arith, upper)))
        | inr lowest ↦ ground (arith, lowest)
      ];
  colours = λ i less.
      scroll_lem white_on_black (2 * i + 1) mem (omega arith) ∙ elim (Bool-cases (ltb i 1920)) [
        | inl upper ↦
            let e : 2 * i + 1 + 160 ≡ 2 * (i + 80) + 1 = omega arith in
            let upper' : ltb (2 * i + 1) 3840 ≡ true = ground (arith, upper) in
            rw upper'
              (ap (λ o. mem (video_address + o)) e ∙ shown.colours (i + 80) (ground (arith, upper)))
        | inr lowest ↦ ground (arith, lowest)
      ];
}

-- The end of `print_char`, with the cursor on the screen or just behind it.
finish_char-Shows :
    (n : ℕ) (s : Screen) (cells : ℕ → ℕ)
    → n ≤ 2000
    → ShowsCells s.mem cells
    → Shows (finish_char (2 * n) white_on_black s) (wrap (record { cells = cells; cursor = n }))
unfolding finish_char
finish_char-Shows n s cells small shown = elim (Bool-cases (leb 2000 n)) [
  | inl behind ↦
      let behind' : leb 4000 (2 * n) ≡ true = ground (arith, behind) in
      let at : 2 * n - 160 ≡ 2 * (n - 80) = omega arith in
      rw (behind, behind', at)
        (set_cursor_offset-Shows (n - 80) (record s { mem = scroll white_on_black s.mem })
          (λ i. if ltb i 1920 then cells (i + 80) else b' ') (omega arith)
          (scroll-ShowsCells s.mem cells shown))
  | inr before ↦
      let before' : leb 4000 (2 * n) ≡ false = ground (arith, before) in
      rw (before, before') (set_cursor_offset-Shows n s cells (ground (arith, before)) shown)
]

finish_char-OnlyScreen :
    (offset : ℕ) (s : Screen) → OnlyScreen s.mem (finish_char offset white_on_black s).mem
unfolding finish_char set_cursor_offset
finish_char-OnlyScreen offset s a out = elim (Bool-cases (leb 4000 offset)) [
  | inl behind ↦ rw behind (scroll_outside white_on_black a s.mem out)
  | inr before ↦ rw before refl
]

-- Which register is selected does not matter.
Shows-selected : (s : Screen) (t : Terminal) → Shows s t → Shows (record s { selected = 15 }) t
Shows-selected s t shows = record {
  inside = shows.inside;
  high = shows.high;
  low = shows.low;
  shown = shows.shown;
}

abbrev pub written : ℕ → ℕ → (ℕ → ℕ) → ℕ → ℕ
written n c mem =
    store_byte (video_address + 2 * n + 1) white_on_black (store_byte (video_address + 2 * n) c mem)

pub written-ShowsCells :
    (n c : ℕ) (mem cells : ℕ → ℕ)
    → ShowsCells mem cells
    → ShowsCells (written n c mem) (store_byte n c cells)
written-ShowsCells n c mem cells shown = record {
  chars = λ i less. ground (arith, shown.chars i less);
  colours = λ i less. ground (arith, shown.colours i less);
}

-- At the cursor `print_char` is one round of both.
print_char_at :
    (c n : ℕ) (s : Screen)
    → get_cursor_offset s ≡ (2 * n, record s { selected = 15 })
    → get_cursor_offset (record s { selected = 15 }) ≡ (2 * n, record s { selected = 15 })
    → print_char c (negsuc 0) (negsuc 0) white_on_black s ≡ (
        if c == 10
        then finish_char (2 * ((n / 80 + 1) * 80)) white_on_black (record s { selected = 15 })
        else finish_char
            (2 * (n + 1))
            white_on_black
            (record s { selected = 15; mem = written n c s.mem }))
unfolding print_char place
print_char_at c n s e e' =
    let next : (2 * n / 160 + 1) * 160 ≡ 2 * ((n / 80 + 1) * 80) = omega arith in
    let after : 2 * n + 2 ≡ 2 * (n + 1) = omega arith in rw (e, e', next, after) refl

module _ (c : ℕ) (s : Screen) (t : Terminal) (shows : Shows s t) where
  print_char_here : print_char c (negsuc 0) (negsuc 0) white_on_black s ≡ (
      if c == 10
      then finish_char (2 * ((t.cursor / 80 + 1) * 80)) white_on_black (record s { selected = 15 })
      else finish_char
          (2 * (t.cursor + 1))
          white_on_black
          (record s { selected = 15; mem = written t.cursor c s.mem }))
  print_char_here =
      print_char_at c t.cursor s (get_cursor_offset_lem s t shows)
        (get_cursor_offset_lem (record s { selected = 15 }) t (Shows-selected s t shows))

  print_char-Shows : Shows (print_char c (negsuc 0) (negsuc 0) white_on_black s) (type_char c t)
  print_char-Shows =
      subst (λ s'. Shows s' (type_char c t)) (sym print_char_here)
        (elim (Bool-cases (c == 10)) [
          | inl line ↦ rw line (
              finish_char-Shows ((t.cursor / 80 + 1) * 80) (record s { selected = 15 }) t.cells
                (omega (arith, shows.inside)) shows.shown)
          | inr char ↦ rw char (
              finish_char-Shows (t.cursor + 1)
                (record s { selected = 15; mem = written t.cursor c s.mem })
                (store_byte t.cursor c t.cells) (omega (arith, shows.inside))
                (written-ShowsCells t.cursor c s.mem t.cells shows.shown))
        ])

  print_char-OnlyScreen : OnlyScreen s.mem (print_char c (negsuc 0) (negsuc 0) white_on_black s).mem
  print_char-OnlyScreen a out = ap (λ s'. s'.mem a) print_char_here ∙ elim (Bool-cases (c == 10)) [
    | inl line ↦
        rw line (
          finish_char-OnlyScreen (2 * ((t.cursor / 80 + 1) * 80)) (record s { selected = 15 }) a
            out)
    | inr char ↦ rw char (
        finish_char-OnlyScreen (2 * (t.cursor + 1))
          (record s { selected = 15; mem = written t.cursor c s.mem }) a out
        ∙ ground (arith, shows.inside, out))
  ]

print_chars-Shows :
    (message : List ℕ) (s : Screen) (t : Terminal)
    → Shows s t
    → Shows (print_chars message (negsuc 0) (negsuc 0) s) (type_text message t)
      × OnlyScreen s.mem (print_chars message (negsuc 0) (negsuc 0) s).mem
unfolding print_chars type_text
print_chars-Shows [] s t shows = (shows, λ a out. refl)
print_chars-Shows (c ∷ message) s t shows = elim (Bool-cases (c == 0)) [
  | inl end ↦ (rw end shows, λ a out. rw end refl)
  | inr more ↦
      let (later, only) =
        print_chars-Shows message (print_char c (negsuc 0) (negsuc 0) white_on_black s)
          (type_char c t) (print_char-Shows c s t shows) in
      (rw more later, λ a out. rw more (only a out ∙ print_char-OnlyScreen c s t shows a out))
]

-- On a screen that shows a terminal, `kprint` types its message up to the first 0: every character at the
-- cursor, which moves to the next line at the end of one and at a newline, and everything moves up by one
-- line behind the last. The cursor stays on the screen, and no byte outside video memory changes.
pub kprint-Shows :
    (message : List ℕ) (s : Screen) (t : Terminal)
    → Shows s t
    → Shows (kprint message s) (type_text message t) × OnlyScreen s.mem (kprint message s).mem
unfolding kprint_at
kprint-Shows message s t shows = print_chars-Shows message s t shows
