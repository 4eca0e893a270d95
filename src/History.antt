-- ===== src/History.antt =====
-- The command history of kernel/kernel.c: ten slots that are written in turn. A C string is the list of
-- its bytes before the NUL, and -1 for "not browsing" is none.
pub mod Log
mod Browse
mod Tests
use claude_os_20day_challeng.Base.{
  ℕ, zero, suc, ◌+◌, ◌-◌, ◌%◌, ◌^◌, Bool, true, false, not, ◌&&◌, Option, none, some, List, [], ◌∷◌,
  take, ltb, ◌==◌, if◌then◌else◌, add32, sub32, is_negative,
}

abbrev pub history_size : ℕ
history_size = 10

abbrev pub history_max_len : ℕ
history_max_len = 255

pub record History : Type 0 where
  pub command_history : ℕ → List ℕ
  pub history_count : ℕ
  pub history_current : Option ℕ

-- A `char` as an `int`: the type is signed.
abbrev pub char_value : ℕ → ℕ
char_value c = if ltb c 128 then c else c + (2 ^ 32 - 256)

-- `shell_strcmp`, as an `int`.
unfoldable pub shell_strcmp : List ℕ → List ℕ → ℕ
shell_strcmp [] [] = 0
shell_strcmp [] (y ∷ ys) = sub32 0 (char_value y)
shell_strcmp (x ∷ xs) [] = char_value x
shell_strcmp (x ∷ xs) (y ∷ ys) =
    let rest = shell_strcmp xs ys in if x == y then rest else sub32 (char_value x) (char_value y)

-- `simple_strcpy_safe`: the string in `dest` afterwards.
abbrev pub simple_strcpy_safe : List ℕ → ℕ → List ℕ
simple_strcpy_safe src max_len = take (max_len - 1) src

-- `add_to_history`.
unfoldable pub add_to_history : List ℕ → History → History
unfolding shell_strcmp
add_to_history [] s = s
add_to_history (c ∷ cs) s =
    let command = c ∷ cs in
    let last_idx = (s.history_count - 1) % history_size in
    let idx = s.history_count % history_size in
    if not (is_negative s.history_count)
      && ltb 0 s.history_count
      && shell_strcmp (s.command_history last_idx) command == 0
    then s
    else record s {
      command_history = λ i.
          if i == idx
          then simple_strcpy_safe command (history_max_len + 1)
          else s.command_history i;
      history_count = add32 s.history_count 1;
    }

-- The end of `get_history_command`, at an entry.
unfoldable pub show_entry : ℕ → History → Option (List ℕ) × History
show_entry current s =
    (some (s.command_history (current % history_size)), record s { history_current = some current })

unfoldable pub go_back : Option ℕ → History → Option (List ℕ) × History
unfolding show_entry
go_back none s = show_entry (s.history_count - 1) s
go_back (some current) s =
    let max_history = if ltb s.history_count history_size then s.history_count else history_size in
    if ltb (s.history_count - max_history) current then show_entry (current - 1) s else (none, s)

unfoldable pub go_forward : Option ℕ → History → Option (List ℕ) × History
unfolding show_entry
go_forward none s = (none, s)
go_forward (some current) s =
    if ltb current (s.history_count - 1)
    then show_entry (current + 1) s
    else (some [], record s { history_current = none })

-- `get_history_command`, where `up` is `direction > 0`; none stands for NULL.
unfoldable pub get_history_command : Bool → History → Option (List ℕ) × History
unfolding go_back go_forward
get_history_command up s =
    if s.history_count == 0
    then (none, s)
    else (if up then go_back s.history_current s else go_forward s.history_current s)

unfoldable pub reset_history_position : History → History
reset_history_position s = record s { history_current = none }
