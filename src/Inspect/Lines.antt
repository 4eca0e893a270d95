-- ===== src/Inspect/Lines.antt =====
-- `search_in_file` of kernel/kernel.c, and the lines of a text.
use claude_os_20day_challeng.Base.{
  ℕ, ◌+◌, ◌<◌, ◌≤◌, ◌≡◌, ◌≢◌, ◌⊎◌, refl, sym, ap, ap₂, ◌∙◌, Bool, true, false, List, [], ◌∷◌, ◌++◌,
  length, leb, ◌==◌, if◌then◌else◌, Bool-cases, inl, inr, arith,
}
use claude_os_20day_challeng.Inspect.{matches_at, line_matches, search_from, search_in_file}

-- The bytes up to the first line end, and the lines after it.
abbrev pub first_line : List ℕ → List ℕ × List (List ℕ)
first_line [] = ([], [])
first_line (c ∷ cs) =
    let (l, ls) = first_line cs in if c == b'\n' then ([], l ∷ ls) else (c ∷ l, ls)

abbrev pub lines_of : List ℕ → List (List ℕ)
lines_of cs = let (l, ls) = first_line cs in l ∷ ls

-- The numbers, from `n` on, of the lines that match.
abbrev pub numbers : List ℕ → ℕ → List (List ℕ) → List ℕ
numbers pattern n [] = []
numbers pattern n (l ∷ ls) =
    if line_matches pattern l then n ∷ numbers pattern (n + 1) ls else numbers pattern (n + 1) ls

append_assoc : (xs ys zs : List ℕ) → (xs ++ ys) ++ zs ≡ xs ++ (ys ++ zs)
append_assoc [] ys zs = refl
append_assoc (x ∷ xs) ys zs = ap (λ l. x ∷ l) (append_assoc xs ys zs)

append-none : (xs : List ℕ) → xs ++ [] ≡ xs
append-none [] = refl
append-none (x ∷ xs) = ap (λ l. x ∷ l) (append-none xs)

search_from-numbers :
    (pattern cs line : List ℕ) (n : ℕ)
    → search_from pattern cs line n
      ≡ numbers pattern n ((line ++ (first_line cs).0) ∷ (first_line cs).1)
unfolding search_from
search_from-numbers pattern [] line n =
    ap (λ l. if line_matches pattern l then n ∷ [] else []) (sym (append-none line))
search_from-numbers pattern (c ∷ cs) line n =
    let next = search_from-numbers pattern cs [] (n + 1) in
    let longer = search_from-numbers pattern cs (line ++ c ∷ []) n in
    elim (Bool-cases (c == b'\n')) [
      | inl newline ↦
          rw newline
            (ap₂ (λ l r. if line_matches pattern l then n ∷ r else r) (sym (append-none line)) next)
      | inr other ↦ rw other (
          longer
          ∙ ap (λ l. numbers pattern n (l ∷ (first_line cs).1))
              (append_assoc line (c ∷ []) (first_line cs).0))
    ]

-- The line has the pattern in it, or nowhere.
abbrev pub Occurs : List ℕ → List ℕ → Bool → Type 0
Occurs pattern line found =
    ((found ≡ true) × (a : List ℕ) × (b : List ℕ) × (line ≡ a ++ (pattern ++ b)))
    ⊎ ((found ≡ false) × ((a b : List ℕ) → line ≢ a ++ (pattern ++ b)))

matches_at-prefix :
    (pattern bytes : List ℕ)
    → matches_at pattern bytes ≡ true
    → (b : List ℕ) × (bytes ≡ pattern ++ b)
unfolding matches_at
matches_at-prefix [] bytes m = (bytes, refl)
matches_at-prefix (p ∷ pattern) [] m = absurd (ground (arith, m))
matches_at-prefix (p ∷ pattern) (c ∷ bytes) m = elim (Bool-cases (c == p)) [
  | inl here ↦
      let later = matches_at-prefix pattern bytes (ground (arith, m)) in
      (later.0, ap₂ (λ x xs. x ∷ xs) (ground arith) later.1)
  | inr apart ↦ absurd (ground (arith, m))
]

matches_at-append : (pattern b : List ℕ) → matches_at pattern (pattern ++ b) ≡ true
unfolding matches_at
matches_at-append [] b = refl
matches_at-append (p ∷ pattern) b = let rest = matches_at-append pattern b in ground (arith, rest)

shorter : (xs ys : List ℕ) → length xs ≤ length (xs ++ ys)
shorter [] ys = omega arith
shorter (x ∷ xs) ys = let rest = shorter xs ys in omega (arith, rest)

abbrev tail_of : List ℕ → List ℕ
tail_of [] = []
tail_of (x ∷ xs) = xs

too_short : (a pattern b : List ℕ) → length pattern ≤ length (a ++ (pattern ++ b))
too_short [] pattern b = shorter pattern b
too_short (x ∷ a) pattern b = let rest = too_short a pattern b in omega (arith, rest)

no_room :
    (pattern line : List ℕ)
    → length line < length pattern
    → (a b : List ℕ) → line ≢ a ++ (pattern ++ b)
no_room pattern line short a b e =
    let bound = too_short a pattern b in
    let lengths = ap (λ (l : List ℕ). length l) e in absurd (omega (arith, bound, lengths))

not_here :
    (pattern line : List ℕ) (c : ℕ)
    → matches_at pattern (c ∷ line) ≡ false
    → ((a b : List ℕ) → line ≢ a ++ (pattern ++ b))
    → (a b : List ℕ) → c ∷ line ≢ a ++ (pattern ++ b)
not_here pattern line c m out [] b e =
    absurd (ground (arith, m, ap (matches_at pattern) e, matches_at-append pattern b))
not_here pattern line c m out (x ∷ a) b e = out a b (ap tail_of e)

-- A line matches exactly if the pattern occurs in it.
line_matches-Occurs : (pattern line : List ℕ) → Occurs pattern line (line_matches pattern line)
unfolding line_matches
line_matches-Occurs [] [] = inl (refl, [], [], refl)
line_matches-Occurs (p ∷ pattern) [] =
    inr (ground arith, λ a b. no_room (p ∷ pattern) [] (omega arith) a b)
line_matches-Occurs pattern (c ∷ line) =
    elim (Bool-cases (leb (length pattern) (length line + 1))) [
      | inl room ↦ elim (Bool-cases (matches_at pattern (c ∷ line))) [
        | inl here ↦
            let found = matches_at-prefix pattern (c ∷ line) here in
            rw (room, here) (inl (refl, [], found.0, found.1))
        | inr m ↦
            rw (room, m)
              (elim (line_matches-Occurs pattern line) [
                | inl later ↦ inl (later.0, c ∷ later.1, later.2, ap (λ l. c ∷ l) later.3)
                | inr missing ↦ inr (missing.0, not_here pattern line c m missing.1)
              ])
      ]
      | inr short ↦ rw short (inr (refl, no_room pattern (c ∷ line) (ground arith)))
    ]

-- `grep` shows the numbers, from 1 on, of the lines of the content that match, and a line matches exactly
-- if the pattern occurs in it.
pub search_in_file-Occurs :
    (pattern content : List ℕ)
    → (search_in_file pattern content ≡ numbers pattern 1 (lines_of content))
      × ((line : List ℕ) → Occurs pattern line (line_matches pattern line))
unfolding search_in_file
search_in_file-Occurs pattern content =
    (search_from-numbers pattern content [] 1, line_matches-Occurs pattern)
