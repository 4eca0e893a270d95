-- ===== src/Inspect/Counting.antt =====
-- `count_file_stats` of kernel/kernel.c, and the line ends and words of a text.
use claude_os_20day_challeng.Base.{
  ℕ, ◌+◌, ◌^◌, ◌<◌, ◌≤◌, ◌≡◌, ap, ap₂, ◌∙◌, Bool, true, false, not, ◌&&◌, List, [], ◌∷◌, length,
  ◌==◌, if◌then◌else◌, add32, arith,
}
use claude_os_20day_challeng.Inspect.{Counts, separates, count_char, count_chars, count_file_stats}

abbrev pub line_ends : List ℕ → ℕ
line_ends [] = 0
line_ends (c ∷ cs) = (if c == b'\n' then 1 else 0) + line_ends cs

-- The words that start in the text, where the flag tells whether the byte before it is one of a word.
abbrev pub word_starts : Bool → List ℕ → ℕ
word_starts before [] = 0
word_starts before (c ∷ cs) =
    (if not (separates c) && not before then 1 else 0) + word_starts (not (separates c)) cs

abbrev one_if : Bool → ℕ
one_if b = if b then 1 else 0

starts_bound : (before : Bool) (cs : List ℕ) → word_starts before cs ≤ length cs
starts_bound before [] = omega arith
starts_bound before (c ∷ cs) =
    let rest = starts_bound (not (separates c)) cs in ground (arith, rest)

count_char-lines :
    (c : ℕ) (s : Counts)
    → s.lines + 1 < 2 ^ 32
    → (count_char c s).lines ≡ (if c == b'\n' then 1 else 0) + s.lines
unfolding count_char
count_char-lines c s room = ground arith

count_char-word : (c : ℕ) (s : Counts) → (count_char c s).in_word ≡ not (separates c)
unfolding count_char
count_char-word c s = ground arith

-- A word is counted at its end, or else it is the one that is read.
count_char-words :
    (c : ℕ) (s : Counts)
    → s.words + 1 < 2 ^ 32
    → (count_char c s).words + one_if (count_char c s).in_word
      ≡ s.words + one_if s.in_word + (if not (separates c) && not s.in_word then 1 else 0)
unfolding count_char
count_char-words c s room = ground arith

total_lines : (old one more : ℕ) {new : ℕ} → new ≡ one + old → new + more ≡ old + (one + more)
total_lines old one more e = omega arith

total_words :
    (old one : ℕ) {new more more' : ℕ}
    → new ≡ old + one
    → more ≡ more'
    → new + more ≡ old + (one + more')
total_words old one e e' = omega arith

pub count_chars-counts :
    (cs : List ℕ) (s : Counts)
    → s.lines + length cs < 2 ^ 32
    → s.words + one_if s.in_word + length cs < 2 ^ 32
    → ((count_chars cs s).lines ≡ s.lines + line_ends cs)
      × ((count_chars cs s).words + one_if (count_chars cs s).in_word
          ≡ s.words + one_if s.in_word + word_starts s.in_word cs)
unfolding count_chars
count_chars-counts [] s room room' = (omega arith, omega arith)
count_chars-counts (c ∷ cs) s room room' =
    let lines = count_char-lines c s (omega arith) in
    let word = count_char-word c s in
    let words = count_char-words c s (omega arith) in
    let one_line : (if c == b'\n' then 1 else 0) ≤ 1 = ground arith in
    let one_word : (if not (separates c) && not s.in_word then 1 else 0) ≤ 1 = ground arith in
    let rest =
      count_chars-counts cs (count_char c s) (omega (arith, lines, one_line))
        (omega (arith, words, one_word)) in
    (
      rest.0 ∙ total_lines s.lines (if c == b'\n' then 1 else 0) (line_ends cs) lines,
      rest.1
          ∙ total_words (s.words + one_if s.in_word)
              (if not (separates c) && not s.in_word then 1 else 0) words
              (ap (λ b. word_starts b cs) word),
    )

last_word :
    (reading : Bool) (words starts : ℕ)
    → words + one_if reading ≡ 0 + one_if false + starts
    → starts < 2 ^ 31
    → (if reading then add32 words 1 else words) ≡ starts
last_word true words starts e small = omega arith
last_word false words starts e small = omega arith

-- `wc` shows the number of line ends and the number of words, where a word starts with a byte that is no
-- blank, tab or line end and follows none of a word.
pub count_file_stats-counts :
    (content : List ℕ)
    → length content < 2 ^ 31
    → count_file_stats content ≡ (line_ends content, word_starts false content)
unfolding count_file_stats
count_file_stats-counts content small =
    let start : Counts = record { lines = 0; words = 0; in_word = false } in
    let counts = count_chars-counts content start (omega arith) (omega arith) in
    let bound = starts_bound false content in
    let end = count_chars content start in
    ap₂ (λ a b. (a, b)) (counts.0 ∙ omega arith)
      (last_word end.in_word end.words (word_starts false content) (counts.1)
        (omega (arith, bound)))
