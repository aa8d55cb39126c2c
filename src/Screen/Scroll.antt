-- ===== src/Screen/Scroll.antt =====
-- What the loops of `print_char` in src/drivers/screen.c write.
use os_eojin.Base.{
  ℕ, zero, suc, ◌+◌, ◌-◌, ◌*◌, ◌%◌, ◌≤◌, ◌<◌, ◌≡◌, true, ◌&&◌, ltb, leb, ◌==◌, if◌then◌else◌, arith,
  inl, ◌∙◌, ◌⊎◌,
}
use os_eojin.Machine.{memcpy, store_byte}
use os_eojin.Machine.Bytes.{memcpy-copies}
use os_eojin.Screen.{video_address, copy_rows, blank_cells, scroll}

-- A row is copied to the one above.
copy_row :
    (i a : ℕ) (mem : ℕ → ℕ)
    → 1 ≤ i
    → memcpy (video_address + (i - 1) * 80 * 2) (video_address + i * 80 * 2) 160 mem a ≡ (
        if leb (video_address + (i - 1) * 160) a && ltb a (video_address + i * 160)
        then mem (a + 160)
        else mem a)
copy_row i a mem pos =
    let at : leb (video_address + (i - 1) * 80 * 2) a ≡ true
        → video_address + i * 80 * 2 + (a - (video_address + (i - 1) * 80 * 2)) ≡ a + 160 =
      λ h. ground (arith, h) in
    memcpy-copies 160 (video_address + (i - 1) * 80 * 2) (video_address + i * 80 * 2) a mem
      (inl (omega arith))
    ∙ ground (arith, at)

copy_rows_lem :
    (rows i a : ℕ) (mem : ℕ → ℕ)
    → 1 ≤ i
    → copy_rows rows i mem a ≡ (
        if leb (video_address + (i - 1) * 160) a && ltb a (video_address + (i - 1 + rows) * 160)
        then mem (a + 160)
        else mem a)
unfolding copy_rows
copy_rows_lem zero i a mem pos = ground arith
copy_rows_lem (suc rows) i a mem pos =
    let mem' = memcpy (video_address + (i - 1) * 80 * 2) (video_address + i * 80 * 2) 160 mem in
    copy_rows_lem rows (i + 1) a mem' (omega arith)
    ∙ ground (arith, copy_row i a mem pos, copy_row i (a + 160) mem pos)

pub blank_cells_lem :
    (count a attribute b : ℕ) (mem : ℕ → ℕ)
    → blank_cells count a attribute mem b ≡ (
        if leb a b && ltb b (a + 2 * count)
        then (if (b - a) % 2 == 0 then b' ' else attribute)
        else mem b)
unfolding blank_cells
blank_cells_lem zero a attribute b mem = ground arith
blank_cells_lem (suc count) a attribute b mem =
    blank_cells_lem count (a + 2) attribute b (store_byte (a + 1) attribute (store_byte a b' ' mem))
    ∙ ground arith

-- Scrolling moves every row up, leaves the last one blank, and changes nothing else.
pub scroll_lem :
    (attribute o : ℕ) (mem : ℕ → ℕ)
    → o < 4000
    → scroll attribute mem (video_address + o) ≡ (
        if ltb o 3840
        then mem (video_address + (o + 160))
        else if o % 2 == 0
        then b' '
        else attribute)
scroll_lem attribute o mem small =
    blank_cells_lem 80 (video_address + 3840) attribute (video_address + o) (copy_rows 24 1 mem)
    ∙ ground (arith, copy_rows_lem 24 1 (video_address + o) mem (omega arith))

pub scroll_outside :
    (attribute a : ℕ) (mem : ℕ → ℕ)
    → (a < video_address) ⊎ (video_address + 4000 ≤ a)
    → scroll attribute mem a ≡ mem a
scroll_outside attribute a mem out =
    blank_cells_lem 80 (video_address + 3840) attribute a (copy_rows 24 1 mem)
    ∙ ground (arith, copy_rows_lem 24 1 a mem (omega arith))
