-- ===== src/Command.antt =====
-- The command line of kernel/kernel.c: the split into arguments, aliases and the completion of commands. A
-- C string is the list of its bytes before the NUL; the arguments are the list of the `cmd_argc` first
-- ones.
mod Words
mod Aliases
mod Complete
mod Tests
use claude_os_20day_challeng.Base.{
  ℕ, zero, suc, ◌+◌, ◌-◌, ◌%◌, ◌^◌, Bool, true, false, not, ◌&&◌, ◌||◌, Option, none, some, List,
  [], ◌∷◌, ◌++◌, length, take, ltb, ◌==◌, if◌then◌else◌,
}
use Prim.Native.String.{String}
use claude_os_20day_challeng.MemFs.{codes}
use claude_os_20day_challeng.History.{shell_strcmp, simple_strcpy_safe}

abbrev pub max_args : ℕ
max_args = 8

abbrev pub max_arg_len : ℕ
max_arg_len = 64

abbrev pub blank : ℕ → Bool
blank c = c == b' ' || c == b'\t'

-- The loop of `parse_command_line` and what follows it: `args` are the arguments that are complete,
-- `arg` is the one that is read.
unfoldable pub parse_from : List ℕ → List (List ℕ) → List ℕ → Bool → List (List ℕ)
parse_from [] args arg in_arg =
    if in_arg && ltb (length args) max_args then args ++ arg ∷ [] else args
parse_from (c ∷ cs) args arg in_arg =
    let completed = parse_from cs (args ++ arg ∷ []) [] false in
    let skipped = parse_from cs args arg in_arg in
    let longer = parse_from cs args (arg ++ c ∷ []) true in
    let dropped = parse_from cs args arg true in
    if ltb (length args) max_args
    then (if blank c
        then (if in_arg then completed else skipped)
        else (if ltb (length arg) (max_arg_len - 1) then longer else dropped))
    else args

unfoldable pub parse_command_line : List ℕ → List (List ℕ)
unfolding parse_from
parse_command_line cmdline = parse_from cmdline [] [] false

-- `alias_t`.
pub record Alias : Type 0 where
  pub name : List ℕ
  pub value : List ℕ
  pub in_use : Bool

abbrev new_alias : String → String → Alias
new_alias name value = record {
  name = simple_strcpy_safe (codes name) 16;
  value = simple_strcpy_safe (codes value) 64;
  in_use = true;
}

abbrev free_alias : Alias
free_alias = record { name = []; value = []; in_use = false }

-- The aliases after `init_aliases`.
unfoldable pub init_aliases : List Alias
init_aliases =
    new_alias "ll" "ls -l"
    ∷ new_alias "h" "history"
    ∷ new_alias "c" "clear"
    ∷ new_alias "info" "sysinfo"
    ∷ free_alias
    ∷ free_alias
    ∷ free_alias
    ∷ free_alias
    ∷ free_alias
    ∷ free_alias
    ∷ []

-- `expand_alias`; none stands for the argument itself, which the caller tells by its address.
unfoldable pub expand_alias : List Alias → List ℕ → Option (List ℕ)
expand_alias [] command = none
expand_alias (a ∷ aliases) command =
    let rest = expand_alias aliases command in
    if a.in_use && shell_strcmp a.name command == 0 then some a.value else rest

-- The start of `shell_process_command`: the arguments that it goes by.
unfoldable pub expand_first : List Alias → List (List ℕ) → List (List ℕ)
unfolding expand_alias parse_command_line
expand_first aliases [] = []
expand_first aliases (arg ∷ args) = elim (expand_alias aliases arg) [
  | none ↦ arg ∷ args
  | some value ↦ parse_command_line value
]

unfoldable pub command_args : List Alias → List ℕ → List (List ℕ)
unfolding expand_first
command_args aliases cmd = expand_first aliases (parse_command_line cmd)

-- The commands that `tab_complete_command` knows.
unfoldable pub commands : List (List ℕ)
commands =
    codes "help"
    ∷ codes "clear"
    ∷ codes "version"
    ∷ codes "hello"
    ∷ codes "demo"
    ∷ codes "meminfo"
    ∷ codes "sysinfo"
    ∷ codes "ls"
    ∷ codes "cat"
    ∷ codes "create"
    ∷ codes "delete"
    ∷ codes "write"
    ∷ codes "mkdir"
    ∷ codes "rmdir"
    ∷ codes "cd"
    ∷ codes "pwd"
    ∷ codes "touch"
    ∷ codes "cp"
    ∷ codes "mv"
    ∷ codes "find"
    ∷ codes "history"
    ∷ codes "fsinfo"
    ∷ codes "uptime"
    ∷ codes "syscalls"
    ∷ codes "top"
    ∷ codes "file"
    ∷ codes "wc"
    ∷ codes "grep"
    ∷ codes "alias"
    ∷ codes "vmm"
    ∷ []

-- The inner loop: the bytes of `partial` against those of the command, its NUL included.
unfoldable pub matches : List ℕ → List ℕ → Bool
matches [] command = true
matches (p ∷ partial) [] = false
matches (p ∷ partial) (c ∷ command) =
    let rest = matches partial command in if c == p then rest else false

unfoldable pub first_match : List (List ℕ) → List ℕ → Option (List ℕ)
first_match [] partial = none
first_match (command ∷ rest) partial =
    let later = first_match rest partial in if matches partial command then some command else later

unfoldable pub tab_complete_command : List ℕ → Option (List ℕ)
tab_complete_command partial = if length partial == 0 then none else first_match commands partial
