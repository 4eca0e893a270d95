-- ===== src/Terminal/Printf.antt =====
-- `terminal_printf` of kernel/kernel.c.
use claude_os_20day_challeng.Base.{
  ℕ, zero, suc, ◌+◌, ◌/◌, ◌%◌, Bool, true, false, Option, none, some, List, [], ◌∷◌, ◌++◌, ◌==◌,
  if◌then◌else◌, sub32, is_negative,
}
use claude_os_20day_challeng.MemFs.{codes}
use claude_os_20day_challeng.Strings.{reverse}
use claude_os_20day_challeng.Terminal.{Terminal, putchar, write}

-- An argument: an `int` as its 32-bit pattern, or a string, none standing for NULL.
pub data Arg : Type 0 where
  number : ℕ → Arg
  string : Option (List ℕ) → Arg

-- The loop over the digits, the last one first; an `int` has at most ten.
unfoldable pub digits_of : ℕ → ℕ → List ℕ
digits_of zero num = []
digits_of (suc fuel) num =
    let rest = digits_of fuel (num / 10) in if num == 0 then [] else (b'0' + num % 10) ∷ rest

-- The digits while the `int` is positive.
abbrev pub positive_digits : ℕ → List ℕ
positive_digits num = if is_negative num then [] else digits_of 10 num

-- The text of `%d`.
unfoldable pub int_text : ℕ → List ℕ
int_text num =
    if num == 0
    then b'0' ∷ []
    else (if is_negative num
        then reverse (positive_digits (sub32 0 num) ++ b'-' ∷ [])
        else reverse (positive_digits num))

-- What follows a `%`, with the arguments that are left; none where the arguments do not fit the format.
unfoldable pub directive : ℕ → List Arg → Terminal → Option (List Arg × Terminal)
unfolding int_text
directive c [] t =
    if c == b'd'
    then none
    else (if c == b's'
        then none
        else (if c == b'%'
            then some ([], putchar b'%' t)
            else some ([], putchar c (putchar b'%' t))))
directive c (number n ∷ args) t =
    if c == b'd'
    then some (args, write (int_text n) t)
    else (if c == b's'
        then none
        else (if c == b'%'
            then some (number n ∷ args, putchar b'%' t)
            else some (number n ∷ args, putchar c (putchar b'%' t))))
directive c (string s ∷ args) t =
    if c == b'd'
    then none
    else (if c == b's'
        then some (args, write (elim s [ none ↦ codes "(null)" | some text ↦ text ]) t)
        else (if c == b'%'
            then some (string s ∷ args, putchar b'%' t)
            else some (string s ∷ args, putchar c (putchar b'%' t))))

-- `terminal_printf`; none also where a `%` is the last byte, after which the loop runs past the NUL. The
-- flag tells whether the byte before was a `%`.
unfoldable pub printf_from : Bool → List ℕ → List Arg → Terminal → Option Terminal
printf_from false [] args t = some t
printf_from true [] args t = none
printf_from false (c ∷ cs) args t =
    let started = printf_from true cs args t in
    let shown = printf_from false cs args (putchar c t) in if c == b'%' then started else shown
printf_from true (c ∷ cs) args t = elim (directive c args t) [
  | none ↦ none
  | some (args', t') ↦ printf_from false cs args' t'
]

abbrev pub printf : List ℕ → List Arg → Terminal → Option Terminal
printf format args t = printf_from false format args t
