-- ===== src/Shell/Bounds.antt =====
-- The bounds of the line editor of kernel/kernel.c, key by key.
use claude_os_20day_challeng.Base.{
  ℕ, zero, suc, ◌+◌, ◌-◌, ◌≤◌, ◌≡◌, refl, ◌∙◌, Bool, true, false, not, ◌&&◌, ◌||◌, Option, none,
  some, List, [], ◌∷◌, ◌++◌, length, take, ltb, leb, ◌==◌, if◌then◌else◌, Bool-cases, inl, inr,
  arith,
}
use claude_os_20day_challeng.MemFs.{codes}
use claude_os_20day_challeng.Terminal.{Terminal, setcolor, putchar, write, update_cursor}
use claude_os_20day_challeng.Terminal.Position.{OnScreen}
use claude_os_20day_challeng.Terminal.Text.{putchar-Kept, write-OnScreen}
use claude_os_20day_challeng.History.{History, get_history_command}
use claude_os_20day_challeng.Command.{tab_complete_command}
use claude_os_20day_challeng.Shell.{
  Shell, light_green, white, yellow, repeat, print_prompt, clear_current_line, display_command,
  word_start_from, complete_with, handle_tab_completion, reset_browsing, next_line, enter,
  erase_last, show_older, show_newer, type_char, handle_char,
}

-- The position is on the screen, and no cell past the screen was written.
pub record Drawn (t t' : Terminal) : Type 0 where
  pub on : OnScreen t'
  pub past : (i : ℕ) → 2000 ≤ i → t'.terminal_buffer i ≡ t.terminal_buffer i

draw_twice : {t t' t'' : Terminal} → Drawn t t' → (OnScreen t' → Drawn t' t'') → Drawn t t''
draw_twice first next =
    let later = next first.on in
    record { on = later.on; past = λ i out. later.past i out ∙ first.past i out }

write-Drawn : (cs : List ℕ) (t : Terminal) → OnScreen t → Drawn t (write cs t)
write-Drawn cs t on = let w = write-OnScreen cs t on in record { on = w.0; past = w.2 }

putchar-Drawn : (c : ℕ) (t : Terminal) → OnScreen t → Drawn t (putchar c t)
putchar-Drawn c t on = let p = putchar-Kept c t on in record { on = p.0; past = p.3 }

setcolor-Drawn : (color : ℕ) (t : Terminal) → OnScreen t → Drawn t (setcolor color t)
unfolding setcolor
setcolor-Drawn color t on = record { on = on; past = λ i out. refl }

colored-Drawn :
    (color : ℕ) (cs : List ℕ) (t : Terminal) → OnScreen t → Drawn t (write cs (setcolor color t))
colored-Drawn color cs t on =
    draw_twice (setcolor-Drawn color t on) (write-Drawn cs (setcolor color t))

print_prompt-Drawn : (t : Terminal) → OnScreen t → Drawn t (print_prompt t)
unfolding print_prompt
print_prompt-Drawn t on =
    draw_twice (colored-Drawn light_green (codes "claudeos> ") t on)
      (setcolor-Drawn white (write (codes "claudeos> ") (setcolor light_green t)))

at_column-Drawn : (t : Terminal) → OnScreen t → Drawn t (record t { terminal_column = 10 })
at_column-Drawn t on = record { on = (on.0, omega arith); past = λ i out. refl }

update_cursor-Drawn : (t : Terminal) → OnScreen t → Drawn t (update_cursor t)
unfolding update_cursor
update_cursor-Drawn t on = record { on = on; past = λ i out. refl }

clear_current_line-Drawn :
    (s : Shell) → OnScreen s.terminal → Drawn s.terminal (clear_current_line s).terminal
unfolding clear_current_line
clear_current_line-Drawn s on =
    let blanks = write (repeat (length s.line) b' ') (record s.terminal { terminal_column = 10 }) in
    draw_twice
      (draw_twice
        (draw_twice (at_column-Drawn s.terminal on)
          (write-Drawn (repeat (length s.line) b' ') (record s.terminal { terminal_column = 10 })))
        (at_column-Drawn blanks))
      (update_cursor-Drawn (record blanks { terminal_column = 10 }))

-- The line fits the buffer with its NUL, the position is on the screen, and the cells past the screen are
-- those of `s`.
abbrev pub Fits : Shell → Shell → Type 0
Fits s s' = (length s'.line ≤ 255) × Drawn s.terminal s'.terminal

take-le : (n : ℕ) (cs : List ℕ) → length (take n cs) ≤ n
take-le zero cs = omega arith
take-le (suc n) [] = omega arith
take-le (suc n) (c ∷ cs) = let rest = take-le n cs in omega (arith, rest)

take-short : (n : ℕ) (cs : List ℕ) → length (take n cs) ≤ length cs
take-short zero cs = omega arith
take-short (suc n) [] = omega arith
take-short (suc n) (c ∷ cs) = let rest = take-short n cs in omega (arith, rest)

length-snoc : (cs : List ℕ) (c : ℕ) → length (cs ++ c ∷ []) ≡ length cs + 1
length-snoc [] c = refl
length-snoc (x ∷ cs) c = let rest = length-snoc cs c in omega (arith, rest)

stays : (t : Terminal) → OnScreen t → Drawn t t
stays t on = record { on = on; past = λ i out. refl }

display_command-Fits :
    (cmd : List ℕ) (s : Shell) → OnScreen s.terminal → Fits s (display_command cmd s)
unfolding display_command
display_command-Fits cmd s on = (
  take-le 255 cmd,
  draw_twice (clear_current_line-Drawn s on)
      (write-Drawn (take 255 cmd) (clear_current_line s).terminal),
)

complete_with-Fits :
    (found : Option (List ℕ)) (s : Shell)
    → length s.line ≤ 255
    → OnScreen s.terminal
    → Fits s (complete_with found s)
unfolding complete_with
complete_with-Fits none s short on = (
  short,
  draw_twice
      (draw_twice (colored-Drawn yellow (codes " [no match]") s.terminal on)
        (setcolor-Drawn white (write (codes " [no match]") (setcolor yellow s.terminal))))
      (write-Drawn (repeat 11 8)
        (setcolor white (write (codes " [no match]") (setcolor yellow s.terminal)))),
)
complete_with-Fits (some completion) s short on = (
  take-le 255 completion,
  draw_twice (write-Drawn (repeat (length s.line) 8) s.terminal on)
      (write-Drawn (take 255 completion) (write (repeat (length s.line) 8) s.terminal)),
)

either_way : (b : Bool) (s u v : Shell) → Fits s u → Fits s v → Fits s (if b then u else v)
either_way true s u v f g = f
either_way false s u v f g = g

handle_tab_completion-Fits :
    (s : Shell) → length s.line ≤ 255 → OnScreen s.terminal → Fits s (handle_tab_completion s)
unfolding handle_tab_completion
handle_tab_completion-Fits s short on =
    let word_start = word_start_from s.line (length s.line - 1) in
    either_way
      ((length s.line == 0 || leb 63 (length s.line - word_start)) || not (word_start == 0)) s s
      (complete_with (tab_complete_command s.line) s) (short, stays s.terminal on)
      (complete_with-Fits (tab_complete_command s.line) s short on)

show_older-Fits :
    (found : Option (List ℕ)) (h : History) (s : Shell)
    → length s.line ≤ 255
    → OnScreen s.terminal
    → Fits s (show_older (found, h) s)
unfolding show_older
show_older-Fits none h s short on = (short, stays s.terminal on)
show_older-Fits (some cmd) h s short on = display_command-Fits cmd (record s { history = h }) on

show_newer-Fits :
    (found : Option (List ℕ)) (h : History) (s : Shell)
    → length s.line ≤ 255
    → OnScreen s.terminal
    → Fits s (show_newer (found, h) s)
unfolding show_newer
show_newer-Fits none h s short on = (short, stays s.terminal on)
show_newer-Fits (some []) h s short on =
    (omega arith, clear_current_line-Drawn (record s { history = h }) on)
show_newer-Fits (some (c ∷ cs)) h s short on =
    display_command-Fits (c ∷ cs) (record s { history = h }) on

erase_last-Fits : (s : Shell) → length s.line ≤ 255 → OnScreen s.terminal → Fits s (erase_last s)
unfolding erase_last reset_browsing
erase_last-Fits s short on = elim (Bool-cases (ltb 0 (length s.line))) [
  | inl more ↦
      rw more (omega (arith, take-short (length s.line - 1) s.line), putchar-Drawn 8 s.terminal on)
  | inr empty ↦ rw empty (short, stays s.terminal on)
]

type_char-Fits :
    (c : ℕ) (s : Shell) → length s.line ≤ 255 → OnScreen s.terminal → Fits s (type_char c s)
unfolding type_char reset_browsing
type_char-Fits c s short on = elim (Bool-cases (ltb (length s.line) 255)) [
  | inl room ↦ rw room (ground (arith, length-snoc s.line c), putchar-Drawn c s.terminal on)
  | inr full ↦ rw full (short, stays s.terminal on)
]

enter-Fits : (s : Shell) → length s.line ≤ 255 → OnScreen s.terminal → Fits s (enter s).1
unfolding enter next_line reset_browsing
enter-Fits s short on = elim (Bool-cases (ltb 0 (length s.line))) [
  | inl more ↦ rw more (short, putchar-Drawn b'\n' s.terminal on)
  | inr empty ↦ rw empty (
    omega arith,
    draw_twice (putchar-Drawn b'\n' s.terminal on) (print_prompt-Drawn (putchar b'\n' s.terminal)),
  )
]

-- Whatever the key, when the line is within the 255 bytes that leave room for its NUL and the position
-- is on the screen, both are so afterwards, and no cell past the screen is written.
pub handle_char-Fits :
    (c : ℕ) (s : Shell) → length s.line ≤ 255 → OnScreen s.terminal → Fits s (handle_char c s).1
unfolding handle_char reset_browsing
handle_char-Fits c s short on =
    let older = get_history_command true s.history in
    let newer = get_history_command false s.history in
    let same : Fits s s = (short, stays s.terminal on) in
    let typed = if leb 32 c && leb c 126 then type_char c s else s in
    let tabbed = if c == b'\t' then reset_browsing (handle_tab_completion s) else typed in
    let later = if c == 0x0E then show_newer newer s else tabbed in
    let earlier = if c == 0x10 then show_older older s else later in
    let escaped = if c == 0x1B then s else earlier in
    elim (Bool-cases (c == b'\n')) [
      | inl newline ↦ rw newline (enter-Fits s short on)
      | inr other ↦ rw other (
          either_way (c == 8) s (erase_last s) escaped (erase_last-Fits s short on) (
            either_way (c == 0x1B) s s earlier same (
              either_way (c == 0x10) s (show_older older s) later
                (show_older-Fits older.0 older.1 s short on)
                (either_way (c == 0x0E) s (show_newer newer s) tabbed
                  (show_newer-Fits newer.0 newer.1 s short on)
                  (either_way (c == b'\t') s (reset_browsing (handle_tab_completion s)) typed
                    (handle_tab_completion-Fits s short on)
                    (either_way (leb 32 c && leb c 126) s (type_char c s) s
                      (type_char-Fits c s short on) same))))))
    ]
