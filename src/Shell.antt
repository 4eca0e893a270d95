-- ===== src/Shell.antt =====
-- The line editor of kernel/kernel.c: the characters of the keyboard, the line, the terminal and the
-- history. The line is the list of the `shell_pos` first bytes of `shell_buffer`.
mod Bounds
mod Typing
mod Tests
use claude_os_20day_challeng.Base.{
  ℕ, zero, suc, ◌+◌, ◌-◌, ◌%◌, ◌^◌, Bool, true, false, not, ◌&&◌, ◌||◌, Option, none, some, List,
  [], ◌∷◌, ◌++◌, length, take, get_or, ltb, leb, ◌==◌, if◌then◌else◌,
}
use claude_os_20day_challeng.MemFs.{codes}
use claude_os_20day_challeng.Terminal.{
  Terminal, setcolor, vga_entry_color, putchar, write, update_cursor,
}
use claude_os_20day_challeng.History.{
  History, add_to_history, get_history_command, reset_history_position,
}
use claude_os_20day_challeng.Command.{tab_complete_command}

pub record Shell : Type 0 where
  pub line : List ℕ
  pub terminal : Terminal
  pub history : History

-- What the main loop does with a character: it goes on, or it calls `shell_process_command` on the line.
pub data Action : Type 0 where
  wait : Action
  run : List ℕ → Action

abbrev pub light_green : ℕ
light_green = vga_entry_color 10 0

abbrev pub yellow : ℕ
yellow = vga_entry_color 14 0

abbrev pub white : ℕ
white = vga_entry_color 15 0

-- The same character `n` times.
abbrev pub repeat : ℕ → ℕ → List ℕ
repeat zero c = []
repeat (suc n) c = c ∷ repeat n c

unfoldable pub print_prompt : Terminal → Terminal
print_prompt t = setcolor white (write (codes "claudeos> ") (setcolor light_green t))

unfoldable pub clear_current_line : Shell → Shell
clear_current_line s = record s {
  terminal =
      update_cursor
        (record (write (repeat (length s.line) b' ') (record s.terminal { terminal_column = 10 })) {
          terminal_column = 10;
        });
}

-- `display_command`: at most 255 bytes are copied.
unfoldable pub display_command : List ℕ → Shell → Shell
unfolding clear_current_line
display_command cmd s = record s {
  line = take 255 cmd;
  terminal = write (take 255 cmd) (clear_current_line s).terminal;
}

-- The loop of `handle_tab_completion` that looks for the start of the word, from `word_start` down.
unfoldable pub word_start_from : List ℕ → ℕ → ℕ
word_start_from line zero = zero
word_start_from line (suc n) =
    let rest = word_start_from line n in if get_or line n 0 == b' ' then suc n else rest

unfoldable pub complete_with : Option (List ℕ) → Shell → Shell
complete_with none s = record s {
  terminal =
      write (repeat 11 8)
        (setcolor white (write (codes " [no match]") (setcolor yellow s.terminal)));
}
complete_with (some completion) s = record s {
  line = take 255 completion;
  terminal = write (take 255 completion) (write (repeat (length s.line) 8) s.terminal);
}

unfoldable pub handle_tab_completion : Shell → Shell
unfolding complete_with
handle_tab_completion s =
    let word_start = word_start_from s.line (length s.line - 1) in
    if (length s.line == 0 || leb 63 (length s.line - word_start)) || not (word_start == 0)
    then s
    else complete_with (tab_complete_command s.line) s

unfoldable pub reset_browsing : Shell → Shell
reset_browsing s = record s { history = reset_history_position s.history }

-- What follows a command.
unfoldable pub next_line : Shell → Shell
unfolding reset_browsing
next_line s = record (reset_browsing s) { line = []; terminal = print_prompt s.terminal }

-- The branch for `'\n'`, up to the command.
unfoldable pub enter : Shell → Action × Shell
unfolding next_line
enter s =
    let t = record s { terminal = putchar b'\n' s.terminal } in
    if ltb 0 (length s.line)
    then (run s.line, record t { history = add_to_history s.line s.history })
    else (wait, next_line t)

-- The branch for `'\b'`.
unfoldable pub erase_last : Shell → Shell
unfolding reset_browsing
erase_last s = reset_browsing (
    if ltb 0 (length s.line)
    then record s { line = take (length s.line - 1) s.line; terminal = putchar 8 s.terminal }
    else s)

-- The branch for Ctrl+P.
unfoldable pub show_older : Option (List ℕ) × History → Shell → Shell
unfolding display_command
show_older (none, h) s = record s { history = h }
show_older (some cmd, h) s = display_command cmd (record s { history = h })

-- The branch for Ctrl+N.
unfoldable pub show_newer : Option (List ℕ) × History → Shell → Shell
unfolding display_command clear_current_line
show_newer (none, h) s = record s { history = h }
show_newer (some [], h) s = record (clear_current_line (record s { history = h })) { line = [] }
show_newer (some (c ∷ cs), h) s = display_command (c ∷ cs) (record s { history = h })

-- The branch for visible characters.
unfoldable pub type_char : ℕ → Shell → Shell
unfolding reset_browsing
type_char c s = reset_browsing (
    if ltb (length s.line) 255
    then record s { line = s.line ++ c ∷ []; terminal = putchar c s.terminal }
    else s)

-- The body of the main loop of `kernel_main` on a character that is not 0.
unfoldable pub handle_char : ℕ → Shell → Action × Shell
unfolding enter erase_last show_older show_newer type_char handle_tab_completion
handle_char c s = if c == b'\n' then enter s else (
  wait,
  if c == 8
      then erase_last s
      else (if c == 0x1B
          then s
          else (if c == 0x10
              then show_older (get_history_command true s.history) s
              else (if c == 0x0E
                  then show_newer (get_history_command false s.history) s
                  else (if c == b'\t'
                      then reset_browsing (handle_tab_completion s)
                      else (if leb 32 c && leb c 126 then type_char c s else s))))),
)
