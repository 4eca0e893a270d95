-- ===== src/History/Tests.antt =====
-- Examples for the history of kernel/kernel.c.
use claude_os_20day_challeng.Base.{
  ℕ, zero, suc, ◌-◌, ◌%◌, ◌^◌, ◌<◌, ◌≡◌, refl, true, Option, none, List, [], ◌∷◌, get_or, ◌==◌,
  if◌then◌else◌, arith,
}
use claude_os_20day_challeng.History.{History, add_to_history, get_history_command, shell_strcmp}
use claude_os_20day_challeng.History.Log.{Holds, is_text, add_to_history-Holds}
use claude_os_20day_challeng.History.Browse.{Shows, get_history_command-up}

abbrev ls : List ℕ
ls = b'l' ∷ b's' ∷ []

abbrev pwd : List ℕ
pwd = b'p' ∷ b'w' ∷ b'd' ∷ []

abbrev commands : List (List ℕ)
commands = pwd ∷ ls ∷ []

-- Two commands, the position at `current`.
abbrev two : Option ℕ → History
two current = record {
  command_history = λ i. if i == 0 then ls else (if i == 1 then pwd else []);
  history_count = 2;
  history_current = current;
}

entries_of :
    (k : ℕ) (current : Option ℕ)
    → k < 10
    → k < 2
    → (two current).command_history ((2 - 1 - k) % 10) ≡ get_or commands k []
entries_of zero current low inside = refl
entries_of (suc zero) current low inside = refl
entries_of (suc (suc k)) current low inside = absurd (omega arith)

texts_of : (k : ℕ) → k < 2 → is_text (get_or commands k []) ≡ true
texts_of zero inside = refl
texts_of (suc zero) inside = refl
texts_of (suc (suc k)) inside = absurd (omega arith)

two-Holds : (current : Option ℕ) → Holds (two current) commands
two-Holds current = record {
  count = refl;
  entries = λ k low inside. entries_of k current low inside;
  texts = texts_of;
}

shell_strcmp_order : shell_strcmp ls pwd ≡ 2 ^ 32 - 4
unfolding shell_strcmp
shell_strcmp_order = refl

add_to_history-Holds_example : Holds (add_to_history ls (two none)) (ls ∷ pwd ∷ ls ∷ [])
add_to_history-Holds_example =
    add_to_history-Holds ls (two none) commands (two-Holds none) refl (omega arith)

get_history_command-up_example : Shows (two none) commands 0 (get_history_command true (two none))
get_history_command-up_example =
    get_history_command-up (two none) commands (two-Holds none) tt (omega arith)
