-- ===== src/Terminal/Scroll.antt =====
-- The loops of kernel/kernel.c over the cells, without the order in which they go.
use claude_os_20day_challeng.Base.{
  ℕ, zero, suc, ◌+◌, ◌*◌, ◌≤◌, ◌≡◌, ap, ap₂, ◌∙◌, ◌&&◌, ltb, leb, if◌then◌else◌, arith,
}
use claude_os_20day_challeng.Terminal.{
  Terminal, vga_entry, vga_width, write_cell, copy_cells, copy_rows, blank_cells, blank_rows,
  scroll,
}

copy_cells-shift :
    (count y x : ℕ) (buffer : ℕ → ℕ) (i : ℕ)
    → x + count ≤ vga_width
    → copy_cells count y x buffer i
      ≡ (if leb (y * 80 + x) i && ltb i (y * 80 + x + count) then buffer (i + 80) else buffer i)
unfolding copy_cells
copy_cells-shift zero y x buffer i fits = ground arith
copy_cells-shift (suc count) y x buffer i fits =
    let rest =
      copy_cells-shift count y (suc x) (write_cell (y * 80 + x) (buffer ((y + 1) * 80 + x)) buffer)
        i (omega arith) in
    ground (arith, rest)

next_rows :
    (y count i far below here : ℕ)
    → (if leb (suc y * 80) i && ltb i ((suc y + count) * 80)
        then (if leb (y * 80 + 0) (i + 80) && ltb (i + 80) (y * 80 + 0 + 80) then far else below)
        else (if leb (y * 80 + 0) i && ltb i (y * 80 + 0 + 80) then below else here))
      ≡ (if leb (y * 80) i && ltb i ((y + suc count) * 80) then below else here)
next_rows y count i far below here = ground arith

next_blanks :
    (y count i entry here : ℕ)
    → (if leb (suc y * 80) i && ltb i ((suc y + count) * 80)
        then entry
        else (if leb (y * 80 + 0) i && ltb i (y * 80 + 0 + 80) then entry else here))
      ≡ (if leb (y * 80) i && ltb i ((y + suc count) * 80) then entry else here)
next_blanks y count i entry here = ground arith

copy_rows-shift :
    (count y : ℕ) (buffer : ℕ → ℕ) (i : ℕ)
    → copy_rows count y buffer i
      ≡ (if leb (y * 80) i && ltb i ((y + count) * 80) then buffer (i + 80) else buffer i)
unfolding copy_rows
copy_rows-shift zero y buffer i = ground arith
copy_rows-shift (suc count) y buffer i =
    let rest = copy_rows-shift count (suc y) (copy_cells vga_width y 0 buffer) i in
    let here = copy_cells-shift vga_width y 0 buffer i (omega arith) in
    let below = copy_cells-shift vga_width y 0 buffer (i + 80) (omega arith) in
    rest
    ∙ ap₂ (λ p q. if leb (suc y * 80) i && ltb i ((suc y + count) * 80) then p else q) below here
    ∙ next_rows y count i (buffer (i + 80 + 80)) (buffer (i + 80)) (buffer i)

blank_cells-range :
    (count y x entry : ℕ) (buffer : ℕ → ℕ) (i : ℕ)
    → blank_cells count y x entry buffer i
      ≡ (if leb (y * 80 + x) i && ltb i (y * 80 + x + count) then entry else buffer i)
unfolding blank_cells
blank_cells-range zero y x entry buffer i = ground arith
blank_cells-range (suc count) y x entry buffer i =
    let rest = blank_cells-range count y (suc x) entry (write_cell (y * 80 + x) entry buffer) i in
    ground (arith, rest)

pub blank_rows-range :
    (count y entry : ℕ) (buffer : ℕ → ℕ) (i : ℕ)
    → blank_rows count y entry buffer i
      ≡ (if leb (y * 80) i && ltb i ((y + count) * 80) then entry else buffer i)
unfolding blank_rows
blank_rows-range zero y entry buffer i = ground arith
blank_rows-range (suc count) y entry buffer i =
    let rest = blank_rows-range count (suc y) entry (blank_cells vga_width y 0 entry buffer) i in
    let here = blank_cells-range vga_width y 0 entry buffer i in
    rest
    ∙ ap (λ q. if leb (suc y * 80) i && ltb i ((suc y + count) * 80) then entry else q) here
    ∙ next_blanks y count i entry (buffer i)

-- `terminal_scroll` moves every row up by one and blanks the last, and writes nothing past the screen.
pub scroll_lem :
    (t : Terminal) (i : ℕ)
    → (scroll t).terminal_buffer i ≡ (
        if ltb i 1920
        then t.terminal_buffer (i + 80)
        else (if ltb i 2000 then vga_entry b' ' t.terminal_color else t.terminal_buffer i))
unfolding scroll
scroll_lem t i =
    let moved = copy_rows-shift 24 0 t.terminal_buffer i in
    let blanked =
      blank_cells-range 80 24 0 (vga_entry b' ' t.terminal_color) (copy_rows 24 0 t.terminal_buffer)
        i in
    ground (arith, moved, blanked)
