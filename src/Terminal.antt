-- ===== src/Terminal.antt =====
-- The text terminal of kernel/kernel.c: the cells of the VGA buffer by their index, and the position. A
-- `char` is the byte that it is stored as, a C string the list of its bytes before the NUL. The position
-- that the ports of the hardware cursor get is a field.
mod Scroll
pub mod Position
pub mod Text
mod Printf
mod Tests
use claude_os_20day_challeng.Base.{
  ℕ, zero, suc, ◌+◌, ◌-◌, ◌*◌, ◌/◌, ◌%◌, ◌^◌, Bool, true, false, not, ◌&&◌, ◌||◌, List, [], ◌∷◌,
  ◌++◌, ltb, leb, ◌==◌, if◌then◌else◌,
}

abbrev pub vga_width : ℕ
vga_width = 80

abbrev pub vga_height : ℕ
vga_height = 25

pub record Terminal : Type 0 where
  pub terminal_row : ℕ
  pub terminal_column : ℕ
  pub terminal_color : ℕ
  pub terminal_buffer : ℕ → ℕ
  pub cursor : ℕ

-- `vga_entry_color` and `vga_entry`; the parts do not overlap, so that the sum stands for the `|`.
abbrev pub vga_entry_color : ℕ → ℕ → ℕ
vga_entry_color fg bg = fg + bg * 2 ^ 4

abbrev pub vga_entry : ℕ → ℕ → ℕ
vga_entry uc color = uc + color * 2 ^ 8

-- `terminal_buffer[index] = entry`.
abbrev pub write_cell : ℕ → ℕ → (ℕ → ℕ) → ℕ → ℕ
write_cell index entry buffer i = if i == index then entry else buffer i

unfoldable pub update_cursor : Terminal → Terminal
update_cursor t = record t { cursor = (t.terminal_row * vga_width + t.terminal_column) % 2 ^ 16 }

unfoldable pub setcolor : ℕ → Terminal → Terminal
setcolor color t = record t { terminal_color = color }

unfoldable pub putentryat : ℕ → ℕ → ℕ → ℕ → Terminal → Terminal
putentryat c color x y t = record t {
  terminal_buffer = write_cell (y * vga_width + x) (vga_entry c color) t.terminal_buffer;
}

-- The loops over `x` and over `y` of `terminal_scroll`, for the `count` last values.
unfoldable pub copy_cells : ℕ → ℕ → ℕ → (ℕ → ℕ) → ℕ → ℕ
copy_cells zero y x buffer = buffer
copy_cells (suc count) y x buffer =
    copy_cells count y (suc x)
      (write_cell (y * vga_width + x) (buffer ((y + 1) * vga_width + x)) buffer)

unfoldable pub copy_rows : ℕ → ℕ → (ℕ → ℕ) → ℕ → ℕ
unfolding copy_cells
copy_rows zero y buffer = buffer
copy_rows (suc count) y buffer = copy_rows count (suc y) (copy_cells vga_width y 0 buffer)

-- The loops that write blanks.
unfoldable pub blank_cells : ℕ → ℕ → ℕ → ℕ → (ℕ → ℕ) → ℕ → ℕ
blank_cells zero y x entry buffer = buffer
blank_cells (suc count) y x entry buffer =
    blank_cells count y (suc x) entry (write_cell (y * vga_width + x) entry buffer)

unfoldable pub blank_rows : ℕ → ℕ → ℕ → (ℕ → ℕ) → ℕ → ℕ
unfolding blank_cells
blank_rows zero y entry buffer = buffer
blank_rows (suc count) y entry buffer =
    blank_rows count (suc y) entry (blank_cells vga_width y 0 entry buffer)

unfoldable pub scroll : Terminal → Terminal
scroll t = record t {
  terminal_buffer =
      blank_cells vga_width (vga_height - 1) 0 (vga_entry b' ' t.terminal_color)
        (copy_rows (vga_height - 1) 0 t.terminal_buffer);
}

-- The step to the next row in `terminal_putchar`.
unfoldable pub next_row : Terminal → Terminal
next_row t =
    let row = t.terminal_row + 1 in
    let moved = record t { terminal_row = row; terminal_column = 0 } in
    if row == vga_height then record (scroll moved) { terminal_row = vga_height - 1 } else moved

-- The branch for `'\b'`.
unfoldable pub step_back : Terminal → Terminal
unfolding putentryat
step_back t =
    let column = t.terminal_column - 1 in
    if ltb 0 t.terminal_column
    then putentryat b' ' t.terminal_color column t.terminal_row
        (record t { terminal_column = column })
    else t

-- The branch for the other characters.
unfoldable pub put_visible : ℕ → Terminal → Terminal
unfolding putentryat
put_visible c t =
    let put = putentryat c t.terminal_color t.terminal_column t.terminal_row t in
    if t.terminal_column + 1 == vga_width
    then next_row put
    else record put { terminal_column = t.terminal_column + 1 }

unfoldable pub putchar : ℕ → Terminal → Terminal
unfolding update_cursor
putchar c t =
    if c == b'\n'
    then update_cursor (next_row t)
    else (if c == 8 then update_cursor (step_back t) else update_cursor (put_visible c t))

-- `terminal_write`, and `terminal_writestring` with the string that its loop measures.
unfoldable pub write : List ℕ → Terminal → Terminal
write [] t = t
write (c ∷ cs) t = write cs (putchar c t)

unfoldable pub clear : Terminal → Terminal
unfolding update_cursor
clear t = update_cursor (record t {
  terminal_buffer = blank_rows vga_height 0 (vga_entry b' ' t.terminal_color) t.terminal_buffer;
  terminal_column = 0;
  terminal_row = 0;
})

-- `terminal_initialize`: light grey on black.
unfoldable pub initialize : Terminal → Terminal
unfolding clear
initialize t = clear (record t { terminal_color = vga_entry_color 7 0 })
