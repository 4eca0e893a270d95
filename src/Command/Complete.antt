-- ===== src/Command/Complete.antt =====
-- `tab_complete_command` of kernel/kernel.c, and the commands that start with a word.
use claude_os_20day_challeng.Base.{
  ℕ, ◌≡◌, ◌⊎◌, refl, ap, ap₂, subst, Bool, true, false, ◌||◌, Option, none, some, List, [], ◌∷◌,
  ◌++◌, length, ◌==◌, Bool-cases, inl, inr, arith,
}
use claude_os_20day_challeng.History.Log.{same}
use claude_os_20day_challeng.Command.{commands, matches, first_match, tab_complete_command}

-- The string is in the table.
abbrev pub listed : List ℕ → List (List ℕ) → Bool
listed x [] = false
listed x (y ∷ ys) = same x y || listed x ys

same_self : (xs : List ℕ) → same xs xs ≡ true
same_self [] = refl
same_self (x ∷ xs) = let rest = same_self xs in ground (arith, rest)

-- A command that matches starts with the word.
matches-prefix :
    (partial command : List ℕ)
    → matches partial command ≡ true
    → (rest : List ℕ) × (command ≡ partial ++ rest)
unfolding matches
matches-prefix [] command m = (command, refl)
matches-prefix (p ∷ partial) [] m = absurd (ground (arith, m))
matches-prefix (p ∷ partial) (c ∷ command) m = elim (Bool-cases (c == p)) [
  | inl here ↦
      let later = matches-prefix partial command (ground (arith, m)) in
      (later.0, ap₂ (λ a b. a ∷ b) (ground arith) later.1)
  | inr apart ↦ absurd (ground (arith, m))
]

unmatched :
    (partial rest command : List ℕ)
    → matches partial command ≡ false
    → same (partial ++ rest) command ≡ false
unfolding matches
unmatched [] rest command m = absurd (ground (arith, m))
unmatched (p ∷ partial) rest [] m = refl
unmatched (p ∷ partial) rest (c ∷ command) m =
    let later = unmatched partial rest command in ground (arith, m, later)

abbrev pub Completes : List (List ℕ) → List ℕ → Option (List ℕ) → Type 0
Completes table partial result =
    ((rest : List ℕ) × (result ≡ some (partial ++ rest)) × (listed (partial ++ rest) table ≡ true))
    ⊎ ((result ≡ none) × ((rest : List ℕ) → listed (partial ++ rest) table ≡ false))

first_match-Completes :
    (table : List (List ℕ)) (partial : List ℕ) → Completes table partial (first_match table partial)
unfolding first_match
first_match-Completes [] partial = inr (refl, λ rest. refl)
first_match-Completes (y ∷ ys) partial = elim (Bool-cases (matches partial y)) [
  | inl m ↦
      let found = matches-prefix partial y m in
      rw m (
        inl (
          found.0,
          ap some found.1,
          subst (λ x. (same x y || listed x ys) ≡ true) found.1 (rw (same_self y) refl),
        ))
  | inr m ↦ rw m (elim (first_match-Completes ys partial) [
    | inl later ↦ inl (later.0, later.1, ground (arith, later.2))
    | inr missing ↦ inr (missing.0, λ rest. rw (unmatched partial rest y m) (missing.1 rest))
  ])
]

some_word : (c : ℕ) (cs : List ℕ) → (length (c ∷ cs) == 0) ≡ false
some_word c cs = ground arith

-- The completion of a word that is not empty is a command that starts with it; without a completion, no
-- command of the list starts with it.
pub tab_complete_command-Completes :
    (c : ℕ) (cs : List ℕ) → Completes commands (c ∷ cs) (tab_complete_command (c ∷ cs))
unfolding tab_complete_command
tab_complete_command-Completes c cs = rw (some_word c cs) (first_match-Completes commands (c ∷ cs))
