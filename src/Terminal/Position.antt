-- ===== src/Terminal/Position.antt =====
-- What one character does to the terminal of kernel/kernel.c.
use claude_os_20day_challeng.Base.{
  ℕ, ◌+◌, ◌*◌, ◌<◌, ◌≡◌, refl, ap, ◌∙◌, true, false, ltb, ◌==◌, if◌then◌else◌, Bool-cases, inl, inr,
  arith,
}
use claude_os_20day_challeng.Terminal.{
  Terminal, vga_entry, vga_width, vga_height, write_cell, putentryat, scroll, next_row, put_visible,
}
use claude_os_20day_challeng.Terminal.Scroll.{scroll_lem}

-- The index of the cell that is written next.
abbrev pub position : Terminal → ℕ
position t = t.terminal_row * 80 + t.terminal_column

abbrev pub OnScreen : Terminal → Type 0
OnScreen t = (t.terminal_row < vga_height) × (t.terminal_column < vga_width)

-- The screen a row further up.
abbrev pub scrolled : ℕ → (ℕ → ℕ) → ℕ → ℕ
scrolled color buffer i =
    if ltb i 1920 then buffer (i + 80) else (if ltb i 2000 then vga_entry b' ' color else buffer i)

pub next_row-at :
    (t : Terminal)
    → t.terminal_row < vga_height
    → let t' = next_row t in
      ((t'.terminal_row ≡ (if t.terminal_row + 1 == 25 then 24 else t.terminal_row + 1))
        × (t'.terminal_column ≡ 0))
      × (t'.terminal_color ≡ t.terminal_color)
unfolding next_row scroll
next_row-at t low = ((ground arith, ground arith), ground arith)

pub next_row-buffer :
    (t : Terminal) (i : ℕ)
    → (next_row t).terminal_buffer i ≡ (
        if t.terminal_row + 1 == 25
        then scrolled t.terminal_color t.terminal_buffer i
        else t.terminal_buffer i)
unfolding next_row
next_row-buffer t i = elim (Bool-cases (t.terminal_row + 1 == 25)) [
  | inl last ↦
      rw last (scroll_lem (record t { terminal_row = t.terminal_row + 1; terminal_column = 0 }) i)
  | inr more ↦ rw more refl
]

last_cell :
    (row column : ℕ) → (column + 1 == 80) ≡ true → (row + 1 == 25) ≡ (row * 80 + column + 1 == 2000)
last_cell row column wraps = ground arith

inside :
    (row column : ℕ)
    → (column + 1 == 80) ≡ false
    → column < 80
    → row < 25
    → (row * 80 + column + 1 == 2000) ≡ false
inside row column more low high = ground arith

after_wrap :
    (row column : ℕ)
    → (row < 25) × (column < 80)
    → (column + 1 == 80) ≡ true
    → (row' column' : ℕ) → (row' ≡ (if row + 1 == 25 then 24 else row + 1)) × (column' ≡ 0)
    → ((row' < 25) × (column' < 80))
      × (row' * 80 + column'
          ≡ (if row * 80 + column + 1 == 2000 then 1920 else row * 80 + column + 1))
after_wrap row column on wraps row' column' next = ((ground arith, ground arith), ground arith)

pub put_visible-at :
    (c : ℕ) (t : Terminal)
    → OnScreen t
    → let t' = put_visible c t in
      OnScreen t'
      × ((position t' ≡ (if position t + 1 == 2000 then 1920 else position t + 1))
          × (t'.terminal_color ≡ t.terminal_color))
unfolding put_visible putentryat
put_visible-at c t on = elim (Bool-cases (t.terminal_column + 1 == 80)) [
  | inl wraps ↦
      let put = putentryat c t.terminal_color t.terminal_column t.terminal_row t in
      let next = next_row-at put on.0 in
      let done =
        after_wrap t.terminal_row t.terminal_column on wraps (next_row put).terminal_row
          (next_row put).terminal_column next.0 in
      rw wraps (done.0, (done.1, next.1))
  | inr more ↦
      rw (more, inside t.terminal_row t.terminal_column more on.1 on.0)
        ((on.0, ground arith), (omega arith, refl))
]

pub put_visible-buffer :
    (c : ℕ) (t : Terminal) (i : ℕ)
    → OnScreen t
    → let put = write_cell (position t) (vga_entry c t.terminal_color) t.terminal_buffer in
      (put_visible c t).terminal_buffer i
      ≡ (if position t + 1 == 2000 then scrolled t.terminal_color put i else put i)
unfolding put_visible putentryat
put_visible-buffer c t i on = elim (Bool-cases (t.terminal_column + 1 == 80)) [
  | inl wraps ↦
      let put = putentryat c t.terminal_color t.terminal_column t.terminal_row t in
      let shown = write_cell (position t) (vga_entry c t.terminal_color) t.terminal_buffer in
      rw wraps (
        next_row-buffer put i
        ∙ ap (λ b. if b then scrolled t.terminal_color shown i else shown i)
            (last_cell t.terminal_row t.terminal_column wraps))
  | inr more ↦ rw (more, inside t.terminal_row t.terminal_column more on.1 on.0) refl
]
