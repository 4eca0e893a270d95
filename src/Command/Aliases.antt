-- ===== src/Command/Aliases.antt =====
-- The arguments that `shell_process_command` of kernel/kernel.c goes by.
use claude_os_20day_challeng.Base.{
  ℕ, ◌≡◌, ◌≢◌, refl, sym, ap, subst, ◌∙◌, Bool-cases, inl, inr, true, ◌&&◌, Option, none, some,
  List, [], ◌∷◌, ◌++◌, map, take, arith,
}
use claude_os_20day_challeng.Command.{
  Alias, blank, parse_command_line, expand_alias, expand_first, command_args,
}
use claude_os_20day_challeng.Command.Words.{with_word, first_word, words, parse_command_line-words}
use claude_os_20day_challeng.History.Log.{is_text, same, take-is_text, shell_strcmp-same}

-- No alias that is in use has this name.
abbrev pub NoAlias : List Alias → List ℕ → Type 0
NoAlias [] name = Unit {0}
NoAlias (a ∷ aliases) name = ((a.in_use ≡ true) → a.name ≢ name) × NoAlias aliases name

-- The names of the aliases are C strings.
abbrev pub TextNames : List Alias → Type 0
TextNames [] = Unit {0}
TextNames (a ∷ aliases) = (is_text a.name ≡ true) × TextNames aliases

abbrev Texts : List (List ℕ) → Type 0
Texts [] = Unit {0}
Texts (w ∷ ws) = (is_text w ≡ true) × Texts ws

with_word-Texts :
    (w : List ℕ) (ws : List (List ℕ)) → is_text w ≡ true → Texts ws → Texts (with_word w ws)
with_word-Texts [] ws t ts = ts
with_word-Texts (c ∷ w) ws t ts = (t, ts)

first_word-Texts :
    (cs : List ℕ) → is_text cs ≡ true → (is_text (first_word cs).0 ≡ true) × Texts (first_word cs).1
first_word-Texts [] t = (refl, tt)
first_word-Texts (c ∷ cs) t =
    let (word, rest) = first_word-Texts cs (ground arith) in
    elim (Bool-cases (blank c)) [
      | inl e ↦ rw e (refl, with_word-Texts (first_word cs).0 (first_word cs).1 word rest)
      | inr e ↦ rw e (ground arith, rest)
    ]

-- The words of a C string are C strings.
words-Texts : (cs : List ℕ) → is_text cs ≡ true → Texts (words cs)
words-Texts cs t =
    let (word, rest) = first_word-Texts cs t in
    with_word-Texts (first_word cs).0 (first_word cs).1 word rest

same-eq : (xs ys : List ℕ) → same xs ys ≡ true → xs ≡ ys
same-eq [] [] e = refl
same-eq [] (y ∷ ys) e = cc
same-eq (x ∷ xs) [] e = cc
same-eq (x ∷ xs) (y ∷ ys) e =
    let here : x ≡ y = ground arith in rw (here, same-eq xs ys (ground arith)) refl

same_self : (xs : List ℕ) → same xs xs ≡ true
same_self [] = refl
same_self (x ∷ xs) = ground (arith, same_self xs)

-- The search passes over aliases of other names.
expand_alias-other :
    (pre rest : List Alias) (name : List ℕ)
    → TextNames (pre ++ rest)
    → is_text name ≡ true
    → NoAlias pre name
    → expand_alias (pre ++ rest) name ≡ expand_alias rest name
unfolding expand_alias
expand_alias-other [] rest name texts text others = refl
expand_alias-other (a ∷ pre) rest name texts text others =
    let later = expand_alias-other pre rest name texts.1 text others.1 in
    let compared = shell_strcmp-same a.name name texts.0 text in
    elim (Bool-cases (a.in_use && same a.name name)) [
      | inl hit ↦ absurd (others.0 (ground arith) (same-eq a.name name (ground arith)))
      | inr miss ↦ rw (compared, miss) later
    ]

expand_alias-first :
    (a : Alias) (post : List Alias)
    → is_text a.name ≡ true
    → a.in_use ≡ true
    → expand_alias (a ∷ post) a.name ≡ some a.value
unfolding expand_alias
expand_alias-first a post text used =
    rw (used, shell_strcmp-same a.name a.name text text, same_self a.name) refl

TextNames-append : (pre rest : List Alias) → TextNames (pre ++ rest) → TextNames rest
TextNames-append [] rest texts = texts
TextNames-append (a ∷ pre) rest texts = TextNames-append pre rest texts.1

append-none : (aliases : List Alias) → aliases ++ [] ≡ aliases
append-none [] = refl
append-none (a ∷ aliases) = ap (λ l. a ∷ l) (append-none aliases)

expand_alias-none :
    (aliases : List Alias) (name : List ℕ)
    → TextNames aliases
    → is_text name ≡ true
    → NoAlias aliases name
    → expand_alias aliases name ≡ none
unfolding expand_alias
expand_alias-none aliases name texts text others =
    subst (λ l. expand_alias l name ≡ none) (append-none aliases)
      (expand_alias-other aliases [] name (subst TextNames (sym (append-none aliases)) texts) text
        others)

-- What the search finds, and the arguments then.
command_args-expanded :
    (aliases : List Alias) (line w : List ℕ) (ws : List (List ℕ)) (found : Option (List ℕ))
    → words line ≡ w ∷ ws
    → expand_alias aliases (take 63 w) ≡ found
    → command_args aliases line ≡ elim found [
      | none ↦ take 8 (map (take 63) (w ∷ ws))
      | some value ↦ parse_command_line value
    ]
unfolding command_args expand_first
command_args-expanded aliases line w ws found split e =
    ap (expand_first aliases)
      (parse_command_line-words line ∙ ap (λ l. take 8 (map (take 63) l)) split)
    ∙ rw (e, expand_first) refl

-- For a line and alias names that are C strings, and `w` the first word of the line, cut to 63 bytes as
-- every argument is: if no alias in use has that name, the arguments are the first eight words of the
-- line, each cut to 63 bytes; and otherwise they are those of the value of the first alias in use that
-- has it, and nothing of the rest of the line.
pub command_args-first :
    (aliases : List Alias) (line w : List ℕ) (ws : List (List ℕ))
    → TextNames aliases
    → is_text line ≡ true
    → words line ≡ w ∷ ws
    → (NoAlias aliases (take 63 w) → command_args aliases line ≡ take 8 (map (take 63) (w ∷ ws)))
      × ((pre post : List Alias) (a : Alias)
          → aliases ≡ pre ++ a ∷ post
          → NoAlias pre (take 63 w)
          → a.in_use ≡ true
          → a.name ≡ take 63 w
          → command_args aliases line ≡ take 8 (map (take 63) (words a.value)))
command_args-first aliases line w ws texts text split =
    let cut : is_text (take 63 w) ≡ true =
      take-is_text 63 w (subst Texts split (words-Texts line text)).0 in
    (
      (λ others.
          command_args-expanded aliases line w ws none split
            (expand_alias-none aliases (take 63 w) texts cut others)),
      (λ pre post a is others used named.
          let texts' = subst TextNames is texts in
          let first : expand_alias aliases (take 63 w) ≡ some a.value = rw is (
            expand_alias-other pre (a ∷ post) (take 63 w) texts' cut others
            ∙ rw (← named)
                (expand_alias-first a post (TextNames-append pre (a ∷ post) texts').0 used)) in
          command_args-expanded aliases line w ws (some a.value) split first
          ∙ parse_command_line-words a.value),
    )
