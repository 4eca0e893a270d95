-- ===== src/Terminal/Text.antt =====
-- `terminal_putchar`, `terminal_write` and `terminal_clear` of kernel/kernel.c: the text on the screen.
use claude_os_20day_challeng.Base.{
  ℕ, suc, ◌+◌, ◌-◌, ◌<◌, ◌≤◌, ◌≡◌, refl, ap, ◌∙◌, Bool, true, false, not, ◌&&◌, ◌||◌, ltb, leb,
  ◌==◌, if◌then◌else◌, Bool-cases, List, [], ◌∷◌, length, get_or, inl, inr, arith,
}
use claude_os_20day_challeng.Terminal.{
  Terminal, vga_entry, vga_height, write_cell, update_cursor, putentryat, next_row, step_back,
  put_visible, putchar, write, clear,
}
use claude_os_20day_challeng.Terminal.Scroll.{blank_rows-range}
use claude_os_20day_challeng.Terminal.Position.{
  position, OnScreen, scrolled, next_row-at, next_row-buffer, put_visible-at, put_visible-buffer,
}

-- What every character keeps: the position is on the screen and the hardware cursor is there, the colour
-- stays, and no cell past the screen is written.
abbrev pub Kept : Terminal → Terminal → Type 0
Kept t t' =
    OnScreen t'
    × (t'.cursor ≡ position t')
    × (t'.terminal_color ≡ t.terminal_color)
    × ((i : ℕ) → 2000 ≤ i → t'.terminal_buffer i ≡ t.terminal_buffer i)

update_cursor-Kept :
    (t t' : Terminal)
    → OnScreen t'
    → t'.terminal_color ≡ t.terminal_color
    → ((i : ℕ) → 2000 ≤ i → t'.terminal_buffer i ≡ t.terminal_buffer i)
    → Kept t (update_cursor t')
unfolding update_cursor
update_cursor-Kept t t' on color same = (on, omega (arith, on.0, on.1), color, same)

scrolled-past :
    (last : Bool) (color : ℕ) (buffer : ℕ → ℕ) (i : ℕ)
    → 2000 ≤ i
    → (if last then scrolled color buffer i else buffer i) ≡ buffer i
scrolled-past true color buffer i past = ground arith
scrolled-past false color buffer i past = refl

row_end : (row row' : ℕ) → row < 25 → row' ≡ (if row + 1 == 25 then 24 else row + 1) → row' < 25
row_end row row' low e = ground arith

pub step_back-Kept : (t : Terminal) → OnScreen t → Kept t (update_cursor (step_back t))
unfolding step_back putentryat
step_back-Kept t on = elim (Bool-cases (ltb 0 t.terminal_column)) [
  | inl some_column ↦ rw some_column (
      update_cursor-Kept t
        (putentryat b' ' t.terminal_color (t.terminal_column - 1) t.terminal_row
          (record t { terminal_column = t.terminal_column - 1 }))
        (on.0, omega (arith, on.1)) refl (λ i past. ground (arith, on.0, on.1)))
  | inr none_left ↦ rw none_left (update_cursor-Kept t t on refl (λ i past. refl))
]

put_visible-Kept : (c : ℕ) (t : Terminal) → OnScreen t → Kept t (update_cursor (put_visible c t))
put_visible-Kept c t on =
    let at = put_visible-at c t on in
    update_cursor-Kept t (put_visible c t) at.0 at.1.1 (λ i past.
      put_visible-buffer c t i on
      ∙ scrolled-past (position t + 1 == 2000) t.terminal_color
          (write_cell (position t) (vga_entry c t.terminal_color) t.terminal_buffer) i past
      ∙ ground (arith, on.0, on.1))

-- `terminal_putchar` keeps the position on the screen and the cursor at it, whatever the character, and
-- writes no cell past the screen.
pub putchar-Kept : (c : ℕ) (t : Terminal) → OnScreen t → Kept t (putchar c t)
unfolding putchar
putchar-Kept c t on = elim (Bool-cases (c == b'\n')) [
  | inl newline ↦
      let next = next_row-at t on.0 in
      rw newline (
        update_cursor-Kept t (next_row t)
          (row_end t.terminal_row (next_row t).terminal_row on.0 next.0.0, omega (arith, next.0.1))
          next.1
          (λ i past.
            next_row-buffer t i
            ∙ scrolled-past (t.terminal_row + 1 == 25) t.terminal_color t.terminal_buffer i past))
  | inr other ↦ elim (Bool-cases (c == 8)) [
    | inl back ↦ rw (other, back) (step_back-Kept t on)
    | inr visible ↦ rw (other, visible) (put_visible-Kept c t on)
  ]
]

-- `terminal_write` of any text keeps the position on the screen, and writes no cell past the screen.
pub write-OnScreen :
    (cs : List ℕ) (t : Terminal)
    → OnScreen t
    → OnScreen (write cs t)
      × ((write cs t).terminal_color ≡ t.terminal_color)
      × ((i : ℕ) → 2000 ≤ i → (write cs t).terminal_buffer i ≡ t.terminal_buffer i)
unfolding write
write-OnScreen [] t on = (on, refl, λ i past. refl)
write-OnScreen (c ∷ cs) t on =
    let first = putchar-Kept c t on in
    let rest = write-OnScreen cs (putchar c t) first.0 in
    (rest.0, rest.1 ∙ first.2, λ i past. rest.2 i past ∙ first.3 i past)

abbrev pub visible : ℕ → Bool
visible c = not (c == b'\n' || c == 8)

abbrev pub all_visible : List ℕ → Bool
all_visible [] = true
all_visible (c ∷ cs) = visible c && all_visible cs

putchar-visible :
    (c : ℕ) (t : Terminal)
    → OnScreen t
    → visible c ≡ true
    → position t + 1 < 2000
    → (position (putchar c t) ≡ position t + 1)
      × ((i : ℕ)
          → (putchar c t).terminal_buffer i
            ≡ write_cell (position t) (vga_entry c t.terminal_color) t.terminal_buffer i)
unfolding putchar update_cursor
putchar-visible c t on shown room =
    let at = put_visible-at c t on in
    let inside : (position t + 1 == 2000) ≡ false = ground arith in
    let newline : (c == b'\n') ≡ false = ground arith in
    let back : (c == 8) ≡ false = ground arith in
    rw (newline, back)
      (
        (at.1.0 ∙ ap (λ b. if b then 1920 else position t + 1) inside),
        (λ i.
            put_visible-buffer c t i on
            ∙ ap
                (λ b.
                  if b
                  then scrolled t.terminal_color
                      (write_cell (position t) (vga_entry c t.terminal_color) t.terminal_buffer) i
                  else write_cell (position t) (vga_entry c t.terminal_color) t.terminal_buffer i)
                inside),
      )

-- The cells from `start` on show the text.
abbrev pub shows : ℕ → ℕ → List ℕ → (ℕ → ℕ) → ℕ → ℕ
shows start color cs buffer i =
    if leb start i && ltb i (start + length cs)
    then vga_entry (get_or cs (i - start) 0) color
    else buffer i

next_index : (start i : ℕ) → ltb start i ≡ true → i - start ≡ suc (i - (start + 1))
next_index start i later = ground arith

no_offset : (start i : ℕ) → (i == start) ≡ true → i - start ≡ 0
no_offset start i here = ground arith

shows_next :
    (start color c i : ℕ) (cs : List ℕ) (buffer : ℕ → ℕ)
    → shows (start + 1) color cs (write_cell start (vga_entry c color) buffer) i
      ≡ shows start color (c ∷ cs) buffer i
shows_next start color c i cs buffer = elim (Bool-cases (ltb start i)) [
  | inl later ↦
      let step : get_or (c ∷ cs) (i - start) 0 ≡ get_or cs (i - (start + 1)) 0 =
        ap (λ k. get_or (c ∷ cs) k 0) (next_index start i later) in
      ground (arith, step)
  | inr f ↦ elim (Bool-cases (i == start)) [
    | inl here ↦
        let step : get_or (c ∷ cs) (i - start) 0 ≡ c =
          ap (λ k. get_or (c ∷ cs) k 0) (no_offset start i here) in
        ground (arith, step)
    | inr before ↦ ground arith
  ]
]

-- A text that ends before the end of the screen is found in the cells from the position on, in the colour
-- that is set, every other cell is as before, and the position is behind the text.
pub write-text :
    (cs : List ℕ) (t : Terminal)
    → OnScreen t
    → all_visible cs ≡ true
    → position t + length cs < 2000
    → (position (write cs t) ≡ position t + length cs)
      × ((i : ℕ)
          → (write cs t).terminal_buffer i
            ≡ shows (position t) t.terminal_color cs t.terminal_buffer i)
unfolding write
write-text [] t on shown room = (omega arith, λ i. ground arith)
write-text (c ∷ cs) t on shown room =
    let first = putchar-visible c t on (ground arith) (omega arith) in
    let kept = putchar-Kept c t on in
    let rest = write-text cs (putchar c t) kept.0 (ground arith) (omega (arith, first.0)) in
    (
      omega (arith, first.0, rest.0),
      (λ i.
          rest.1 i
          ∙ ap (λ p. shows p (putchar c t).terminal_color cs (putchar c t).terminal_buffer i)
              first.0
          ∙ ap (λ color. shows (position t + 1) color cs (putchar c t).terminal_buffer i) (kept.2)
          ∙ ap
              (λ v.
                if leb (position t + 1) i && ltb i (position t + 1 + length cs)
                then vga_entry (get_or cs (i - (position t + 1)) 0) t.terminal_color
                else v)
              (first.1 i)
          ∙ shows_next (position t) t.terminal_color c i cs t.terminal_buffer),
    )

-- `terminal_clear` blanks the screen and goes to its start.
pub clear-blank :
    (t : Terminal)
    → (position (clear t) ≡ 0)
      × ((clear t).cursor ≡ 0)
      × ((i : ℕ)
          → (clear t).terminal_buffer i
            ≡ (if ltb i 2000 then vga_entry b' ' t.terminal_color else t.terminal_buffer i))
unfolding clear update_cursor
clear-blank t = (
  refl,
  refl,
  λ i.
      blank_rows-range vga_height 0 (vga_entry b' ' t.terminal_color) t.terminal_buffer i
      ∙ ground arith,
)
