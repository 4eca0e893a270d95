-- ===== src/Shell/Typing.antt =====
-- Typing and entering a line in the editor of kernel/kernel.c.
use claude_os_20day_challeng.Base.{
  ℕ, ◌+◌, ◌<◌, ◌≤◌, ◌≡◌, refl, sym, ap, subst, ◌∙◌, Bool, true, false, ◌&&◌, none, List, [], ◌∷◌,
  ◌++◌, length, ltb, leb, ◌==◌, arith,
}
use claude_os_20day_challeng.Terminal.{putchar, write}
use claude_os_20day_challeng.History.{History, add_to_history, reset_history_position}
use claude_os_20day_challeng.History.Log.{Holds, is_text, int_max, remember, add_to_history-Holds}
use claude_os_20day_challeng.Shell.{
  Shell, Action, wait, run, reset_browsing, enter, type_char, handle_char,
}

abbrev pub printable : ℕ → Bool
printable c = leb 32 c && leb c 126

abbrev pub all_printable : List ℕ → Bool
all_printable [] = true
all_printable (c ∷ cs) = printable c && all_printable cs

-- The characters one after the other.
abbrev pub type_all : List ℕ → Shell → Shell
type_all [] s = s
type_all (c ∷ cs) s = type_all cs (handle_char c s).1

-- A shell with a character more on its line.
abbrev pub typed : ℕ → Shell → Shell
typed c s = record {
  line = s.line ++ c ∷ [];
  terminal = putchar c s.terminal;
  history = record s.history { history_current = none };
}

printable_apart :
    (c : ℕ)
    → printable c ≡ true
    → ((c == b'\n') ≡ false)
      × ((c == 8) ≡ false)
      × ((c == 0x1B) ≡ false)
      × ((c == 0x10) ≡ false)
      × ((c == 0x0E) ≡ false)
      × ((c == b'\t') ≡ false)
printable_apart c p =
    (ground arith, ground arith, ground arith, ground arith, ground arith, ground arith)

handle_char-typed :
    (c : ℕ) (s : Shell)
    → printable c ≡ true
    → length s.line < 255
    → handle_char c s ≡ (wait, typed c s)
unfolding handle_char type_char reset_browsing reset_history_position
handle_char-typed c s p room =
    let q = printable_apart c p in
    let fits : ltb (length s.line) 255 ≡ true = ground arith in
    rw (q.0, q.1, q.2, q.3, q.4, q.5, p, fits) refl

append_assoc : (xs ys zs : List ℕ) → (xs ++ ys) ++ zs ≡ xs ++ (ys ++ zs)
append_assoc [] ys zs = refl
append_assoc (x ∷ xs) ys zs = ap (λ l. x ∷ l) (append_assoc xs ys zs)

append-none : (xs : List ℕ) → xs ++ [] ≡ xs
append-none [] = refl
append-none (x ∷ xs) = ap (λ l. x ∷ l) (append-none xs)

length-snoc : (cs : List ℕ) (c : ℕ) → length (cs ++ c ∷ []) ≡ length cs + 1
length-snoc [] c = refl
length-snoc (x ∷ cs) c = let rest = length-snoc cs c in omega (arith, rest)

reset-Holds :
    (h : History) (log : List (List ℕ))
    → Holds h log
    → Holds (record h { history_current = none }) log
reset-Holds h log holds = record {
  count = holds.count;
  entries = holds.entries;
  texts = holds.texts;
}

-- Typing visible characters on a line with room appends them, writes them to the terminal and leaves the
-- entries of the history.
pub type_all-line :
    (cs : List ℕ) (s : Shell) (log : List (List ℕ))
    → all_printable cs ≡ true
    → length s.line + length cs ≤ 255
    → Holds s.history log
    → ((type_all cs s).line ≡ s.line ++ cs)
      × ((type_all cs s).terminal ≡ write cs s.terminal)
      × Holds (type_all cs s).history log
unfolding write
type_all-line [] s log p room holds = (sym (append-none s.line), refl, holds)
type_all-line (c ∷ cs) s log p room holds =
    let step = handle_char-typed c s (ground arith) (omega arith) in
    let rest =
      type_all-line cs (typed c s) log (ground arith) (omega (arith, length-snoc s.line c))
        (reset-Holds s.history log holds) in
    subst
      (λ (o : Action × Shell).
        ((type_all cs o.1).line ≡ s.line ++ c ∷ cs)
        × ((type_all cs o.1).terminal ≡ write cs (putchar c s.terminal))
        × Holds (type_all cs o.1).history log)
      (sym step) (rest.0 ∙ append_assoc s.line (c ∷ []) cs, rest.1, rest.2)

printable-is_text : (cs : List ℕ) → all_printable cs ≡ true → is_text cs ≡ true
printable-is_text [] p = refl
printable-is_text (c ∷ cs) p = let rest = printable-is_text cs in ground (arith, p, rest)

handle_char-enter :
    (s : Shell)
    → 0 < length s.line
    → handle_char b'\n' s ≡ (
      run s.line,
      record s { terminal = putchar b'\n' s.terminal; history = add_to_history s.line s.history },
    )
unfolding handle_char enter
handle_char-enter s more =
    let some_line : ltb 0 (length s.line) ≡ true = ground arith in rw some_line refl

-- Typing a command of at most 255 visible characters on an empty line and pressing Enter runs just this
-- command: it is shown on the terminal, and the history remembers it.
pub type_all-run :
    (cs : List ℕ) (s : Shell) (log : List (List ℕ))
    → s.line ≡ []
    → all_printable cs ≡ true
    → 0 < length cs
    → length cs ≤ 255
    → Holds s.history log
    → length log < int_max
    → let (action, s') = handle_char b'\n' (type_all cs s) in
      (action ≡ run cs)
      × (s'.terminal ≡ putchar b'\n' (write cs s.terminal))
      × Holds s'.history (remember cs log)
type_all-run cs s log empty p more short holds room =
    let t = type_all cs s in
    let typing =
      type_all-line cs s log p (omega (arith, short, ap (λ (l : List ℕ). length l) empty)) holds in
    let line : t.line ≡ cs = typing.0 ∙ ap (λ l. l ++ cs) empty in
    let entered = handle_char-enter t (subst (λ l. 0 < length l) (sym line) more) in
    subst
      (λ (o : Action × Shell).
        (o.0 ≡ run cs)
        × (o.1.terminal ≡ putchar b'\n' (write cs s.terminal))
        × Holds o.1.history (remember cs log))
      (sym entered)
      (
        ap run line,
        ap (putchar b'\n') typing.1,
        subst (λ l. Holds (add_to_history l t.history) (remember cs log)) (sym line)
            (add_to_history-Holds cs t.history log typing.2 (printable-is_text cs p) room),
      )
