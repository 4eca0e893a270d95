-- ===== src/Command/Tests.antt =====
-- Examples for the command line of kernel/kernel.c.
use claude_os_20day_challeng.Base.{◌≡◌, refl, true, some, List, [], ◌∷◌, ◌++◌, map, take}
use claude_os_20day_challeng.MemFs.{codes}
use claude_os_20day_challeng.Command.{
  Alias, parse_command_line, init_aliases, expand_alias, command_args, commands,
  tab_complete_command, expand_first, matches, first_match,
}
use claude_os_20day_challeng.Command.Words.{words, parse_command_line-words}
use claude_os_20day_challeng.Command.Aliases.{NoAlias, command_args-first}
use claude_os_20day_challeng.Command.Complete.{Completes, tab_complete_command-Completes}

parse_two : parse_command_line (codes "  cat  a.txt ") ≡ codes "cat" ∷ codes "a.txt" ∷ []
unfolding parse_command_line
parse_two = refl

-- The argument after an alias is lost.
alias_drops_argument : command_args init_aliases (codes "ll docs") ≡ codes "ls" ∷ codes "-l" ∷ []
unfolding command_args expand_first init_aliases expand_alias parse_command_line
    claude_os_20day_challeng.History.shell_strcmp
alias_drops_argument = refl

tab_complete_first : tab_complete_command (codes "he") ≡ some (codes "help")
unfolding tab_complete_command matches first_match commands
tab_complete_first = refl

parse_command_line-words_example :
    parse_command_line (codes "ls -l") ≡ take 8 (map (take 63) (words (codes "ls -l")))
parse_command_line-words_example = parse_command_line-words (codes "ls -l")

-- The one alias of this table, and a line that is just its name.
abbrev ll_alias : Alias
ll_alias = record { name = codes "ll"; value = codes "ls -l"; in_use = true }

command_args-first_example :
    (NoAlias (ll_alias ∷ []) (codes "ll")
      → command_args (ll_alias ∷ []) (codes "ll") ≡ take 8 (map (take 63) (codes "ll" ∷ [])))
    × ((pre post : List Alias) (a : Alias)
        → ll_alias ∷ [] ≡ pre ++ a ∷ post
        → NoAlias pre (codes "ll")
        → a.in_use ≡ true
        → a.name ≡ codes "ll"
        → command_args (ll_alias ∷ []) (codes "ll") ≡ take 8 (map (take 63) (words a.value)))
command_args-first_example =
    command_args-first (ll_alias ∷ []) (codes "ll") (codes "ll") [] (refl, tt) refl refl

tab_complete_command-Completes_example :
    Completes commands (codes "sy") (tab_complete_command (codes "sy"))
tab_complete_command-Completes_example = tab_complete_command-Completes b's' (b'y' ∷ [])
