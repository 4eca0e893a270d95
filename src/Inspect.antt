-- ===== src/Inspect.antt =====
-- The commands `wc`, `file` and `grep` of kernel/kernel.c without what they print: the counts, the kind of
-- a file and the lines that match. The content is the list of the bytes that were read.
mod Counting
mod Lines
mod Tests
use claude_os_20day_challeng.Base.{
  ℕ, zero, suc, ◌+◌, ◌-◌, ◌%◌, ◌^◌, Bool, true, false, not, ◌&&◌, ◌||◌, Option, none, some, List,
  [], ◌∷◌, ◌++◌, length, take, get_or, ltb, leb, ◌==◌, if◌then◌else◌, add32,
}
use claude_os_20day_challeng.MemFs.{codes}
use claude_os_20day_challeng.History.{shell_strcmp}

-- The counters of `count_file_stats`.
pub record Counts : Type 0 where
  pub lines : ℕ
  pub words : ℕ
  pub in_word : Bool

abbrev pub separates : ℕ → Bool
separates c = (c == b' ' || c == b'\t') || c == b'\n'

-- The body of the loop.
unfoldable pub count_char : ℕ → Counts → Counts
count_char c s =
    let lines = if c == b'\n' then add32 s.lines 1 else s.lines in
    if separates c
    then (if s.in_word
        then record { lines = lines; words = add32 s.words 1; in_word = false }
        else record { lines = lines; words = s.words; in_word = s.in_word })
    else record { lines = lines; words = s.words; in_word = true }

unfoldable pub count_chars : List ℕ → Counts → Counts
count_chars [] s = s
count_chars (c ∷ cs) s = count_chars cs (count_char c s)

-- The lines and words that `count_file_stats` shows.
unfoldable pub count_file_stats : List ℕ → ℕ × ℕ
count_file_stats content =
    let s = count_chars content (record { lines = 0; words = 0; in_word = false }) in
    (s.lines, if s.in_word then add32 s.words 1 else s.words)

-- The texts that `detect_file_type` returns.
pub data FileType : Type 0 where
  unknown : FileType
  data_only : FileType
  text_file : FileType
  configuration_file : FileType
  log_file : FileType
  data_file : FileType
  markdown_file : FileType
  shell_script : FileType
  empty_file : FileType
  binary_data : FileType

-- `filename + n`.
abbrev pub from : ℕ → List ℕ → List ℕ
from zero cs = cs
from (suc n) [] = []
from (suc n) (c ∷ cs) = from n cs

-- The loop over the first 100 bytes; a `char` from 128 on is negative.
unfoldable pub is_text_upto : ℕ → List ℕ → Bool
is_text_upto zero content = true
is_text_upto (suc n) [] = true
is_text_upto (suc n) (c ∷ cs) =
    let rest = is_text_upto n cs in
    if not (c == b'\n' || c == b'\t') && (ltb c 32 || ltb 126 c) then false else rest

unfoldable pub by_content : List ℕ → FileType
by_content content =
    if length content == 0
    then empty_file
    else (if is_text_upto 100 content then text_file else binary_data)

-- `detect_file_type` once there are a name and a content.
unfoldable pub detect_named : List ℕ → List ℕ → FileType
unfolding by_content
detect_named filename content =
    let name_len = length filename in
    let ext4 = from (name_len - 4) filename in
    let ext3 = from (name_len - 3) filename in
    if ltb name_len 3
    then data_only
    else (if leb 4 name_len && shell_strcmp ext4 (codes ".txt") == 0
        then text_file
        else (if leb 4 name_len && shell_strcmp ext4 (codes ".cfg") == 0
            then configuration_file
            else (if leb 4 name_len && shell_strcmp ext4 (codes ".log") == 0
                then log_file
                else (if leb 4 name_len && shell_strcmp ext4 (codes ".dat") == 0
                    then data_file
                    else (if shell_strcmp ext3 (codes ".md") == 0
                        then markdown_file
                        else (if shell_strcmp ext3 (codes ".sh") == 0
                            then shell_script
                            else by_content content))))))

-- `detect_file_type`; none stands for NULL.
unfoldable pub detect_file_type : Option (List ℕ) → Option (List ℕ) → FileType
unfolding detect_named
detect_file_type (some filename) (some content) = detect_named filename content
detect_file_type _ _ = unknown

-- The loop over `k` of `search_in_file`, at the bytes from `j` on.
unfoldable pub matches_at : List ℕ → List ℕ → Bool
matches_at [] bytes = true
matches_at (p ∷ pattern) [] = false
matches_at (p ∷ pattern) (c ∷ bytes) =
    let rest = matches_at pattern bytes in if c == p then rest else false

-- The loop over `j`, in the line that is left.
unfoldable pub line_matches : List ℕ → List ℕ → Bool
unfolding matches_at
line_matches pattern [] = leb (length pattern) 0
line_matches pattern (c ∷ line) =
    let rest = line_matches pattern line in
    if leb (length pattern) (length line + 1)
    then (if matches_at pattern (c ∷ line) then true else rest)
    else false

-- The loop over `i`: `line` has the bytes from `line_start` on. The numbers of the lines that match.
unfoldable pub search_from : List ℕ → List ℕ → List ℕ → ℕ → List ℕ
search_from pattern [] line line_num = if line_matches pattern line then line_num ∷ [] else []
search_from pattern (c ∷ cs) line line_num =
    let next = search_from pattern cs [] (line_num + 1) in
    let longer = search_from pattern cs (line ++ c ∷ []) line_num in
    if c == b'\n' then (if line_matches pattern line then line_num ∷ next else next) else longer

unfoldable pub search_in_file : List ℕ → List ℕ → List ℕ
search_in_file pattern content = search_from pattern content [] 1
