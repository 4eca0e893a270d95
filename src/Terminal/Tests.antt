-- ===== src/Terminal/Tests.antt =====
-- Examples for the terminal of kernel/kernel.c.
use claude_os_20day_challeng.Base.{
  none, ◌^◌, ◌-◌, ℕ, ◌≤◌, ◌≡◌, refl, ltb, if◌then◌else◌, List, [], ◌∷◌, arith,
}
use claude_os_20day_challeng.Terminal.{Terminal, vga_entry, write, clear}
use claude_os_20day_challeng.Terminal.Printf.{int_text, digits_of, printf, printf_from}
use claude_os_20day_challeng.Terminal.Position.{position, OnScreen}
use claude_os_20day_challeng.Terminal.Text.{shows, write-OnScreen, write-text, clear-blank}

-- The last cell of the screen is next.
abbrev at_end : Terminal
at_end = record {
  terminal_row = 24;
  terminal_column = 79;
  terminal_color = 7;
  terminal_buffer = λ i. i;
  cursor = 0;
}

abbrev in_row : Terminal
in_row = record {
  terminal_row = 3;
  terminal_column = 78;
  terminal_color = 7;
  terminal_buffer = λ i. 0;
  cursor = 0;
}

abbrev two_lines : List ℕ
two_lines = b'a' ∷ b'\n' ∷ b'c' ∷ []

abbrev name : List ℕ
name = b'c' ∷ b'l' ∷ b'a' ∷ b'u' ∷ b'd' ∷ b'e' ∷ []

at_end-OnScreen : OnScreen at_end
at_end-OnScreen = (omega arith, omega arith)

in_row-OnScreen : OnScreen in_row
in_row-OnScreen = (omega arith, omega arith)

write-OnScreen_example :
    OnScreen (write two_lines at_end)
    × ((write two_lines at_end).terminal_color ≡ 7)
    × ((i : ℕ) → 2000 ≤ i → (write two_lines at_end).terminal_buffer i ≡ i)
write-OnScreen_example = write-OnScreen two_lines at_end at_end-OnScreen

write-text_example :
    (position (write name in_row) ≡ 324)
    × ((i : ℕ) → (write name in_row).terminal_buffer i ≡ shows 318 7 name (λ i. 0) i)
write-text_example = write-text name in_row in_row-OnScreen refl (omega arith)

clear-blank_example :
    (position (clear at_end) ≡ 0)
    × ((clear at_end).cursor ≡ 0)
    × ((i : ℕ) → (clear at_end).terminal_buffer i ≡ (if ltb i 2000 then vga_entry b' ' 7 else i))
clear-blank_example = clear-blank at_end

-- The least `int` is shown as its sign alone, since its negation wraps.
int_text_least : int_text (2 ^ 31) ≡ b'-' ∷ []
unfolding int_text digits_of
int_text_least = refl

int_text_negative : int_text (2 ^ 32 - 305) ≡ b'-' ∷ b'3' ∷ b'0' ∷ b'5' ∷ []
unfolding int_text digits_of
int_text_negative = refl

-- A format that ends in a percent sign is read past its end.
printf_percent_last : printf (b'%' ∷ []) [] at_end ≡ none
unfolding printf_from
printf_percent_last = refl
