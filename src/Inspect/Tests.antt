-- ===== src/Inspect/Tests.antt =====
-- Examples for the commands `wc`, `file` and `grep` of kernel/kernel.c.
use claude_os_20day_challeng.Base.{ℕ, ◌≡◌, refl, false, some, List, [], ◌∷◌, arith}
use claude_os_20day_challeng.MemFs.{codes}
use claude_os_20day_challeng.History.{shell_strcmp}
use claude_os_20day_challeng.Inspect.{
  log_file, binary_data, count_file_stats, count_chars, count_char, detect_file_type, detect_named,
  by_content, is_text_upto, line_matches, matches_at, search_in_file, search_from,
}
use claude_os_20day_challeng.Inspect.Counting.{line_ends, word_starts, count_file_stats-counts}
use claude_os_20day_challeng.Inspect.Lines.{Occurs, numbers, lines_of, search_in_file-Occurs}

abbrev two_lines : List ℕ
two_lines = b'a' ∷ b' ' ∷ b'b' ∷ b'\n' ∷ b'b' ∷ []

count_two : count_file_stats two_lines ≡ (1, 3)
unfolding count_file_stats count_chars count_char
count_two = refl

grep_two : search_in_file (codes "b") two_lines ≡ 1 ∷ 2 ∷ []
unfolding search_in_file search_from line_matches matches_at
grep_two = refl

detect_log : detect_file_type (some (codes "boot.log")) (some []) ≡ log_file
unfolding detect_file_type detect_named shell_strcmp
detect_log = refl

detect_binary : detect_file_type (some (codes "kernel")) (some (200 ∷ [])) ≡ binary_data
unfolding detect_file_type detect_named shell_strcmp by_content is_text_upto
detect_binary = refl

count_file_stats-counts_example :
    count_file_stats two_lines ≡ (line_ends two_lines, word_starts false two_lines)
count_file_stats-counts_example = count_file_stats-counts two_lines (omega arith)

search_in_file-Occurs_example :
    (search_in_file (codes "b") two_lines ≡ numbers (codes "b") 1 (lines_of two_lines))
    × ((line : List ℕ) → Occurs (codes "b") line (line_matches (codes "b") line))
search_in_file-Occurs_example = search_in_file-Occurs (codes "b") two_lines
