-- ===== src/Command/Words.antt =====
-- `parse_command_line` of kernel/kernel.c, and the words of a line.
use claude_os_20day_challeng.Base.{
  ℕ, zero, suc, ◌+◌, ◌-◌, ◌<◌, ◌≤◌, ◌≡◌, refl, sym, ap, ◌∙◌, Bool, true, false, ◌&&◌, List, [], ◌∷◌,
  ◌++◌, map, length, take, ltb, if◌then◌else◌, Bool-cases, inl, inr, arith,
}
use claude_os_20day_challeng.Command.{blank, parse_from, parse_command_line}

-- A word, if it is not empty, and the words after it.
abbrev pub with_word : List ℕ → List (List ℕ) → List (List ℕ)
with_word [] ws = ws
with_word (c ∷ w) ws = (c ∷ w) ∷ ws

-- The bytes up to the first blank, and the words after it.
abbrev pub first_word : List ℕ → List ℕ × List (List ℕ)
first_word [] = ([], [])
first_word (c ∷ cs) =
    let (w, ws) = first_word cs in if blank c then ([], with_word w ws) else (c ∷ w, ws)

abbrev pub words : List ℕ → List (List ℕ)
words cs = let (w, ws) = first_word cs in with_word w ws

abbrev cut : List (List ℕ) → List (List ℕ)
cut = map (take 63)

-- What is left to read, behind the bytes of the argument that is read.
abbrev pending : Bool → List ℕ → List ℕ × List (List ℕ) → List (List ℕ)
pending true arg (w, ws) = (arg ++ w) ∷ ws
pending false arg (w, ws) = with_word w ws

length-append : {A : Type 0} (xs ys : List A) → length (xs ++ ys) ≡ length xs + length ys
length-append [] ys = omega arith
length-append (x ∷ xs) ys = let rest = length-append xs ys in omega (arith, rest)

append_assoc : {A : Type 0} (xs ys zs : List A) → (xs ++ ys) ++ zs ≡ xs ++ (ys ++ zs)
append_assoc [] ys zs = refl
append_assoc (x ∷ xs) ys zs = ap (λ l. x ∷ l) (append_assoc xs ys zs)

append-none : {A : Type 0} (xs : List A) → xs ++ [] ≡ xs
append-none [] = refl
append-none (x ∷ xs) = ap (λ l. x ∷ l) (append-none xs)

take-none : (n : ℕ) → take {A = List ℕ} n [] ≡ []
take-none zero = refl
take-none (suc n) = refl

-- A full argument takes no more bytes.
take-full : (n : ℕ) (arg w : List ℕ) → length arg ≡ n → take n (arg ++ w) ≡ arg
take-full zero [] w full = refl
take-full zero (c ∷ arg) w full = absurd (omega arith)
take-full (suc n) [] w full = absurd (omega arith)
take-full (suc n) (c ∷ arg) w full = ap (λ l. c ∷ l) (take-full n arg w (omega arith))

pub take-short : (n : ℕ) (arg : List ℕ) → length arg ≤ n → take n arg ≡ arg
take-short zero [] short = refl
take-short zero (c ∷ arg) short = absurd (omega arith)
take-short (suc n) [] short = refl
take-short (suc n) (c ∷ arg) short = ap (λ l. c ∷ l) (take-short n arg (omega arith))

-- One argument more.
take-next :
    (args : List (List ℕ)) (arg : List ℕ) (rest : List (List ℕ))
    → length args < 8
    → (args ++ arg ∷ []) ++ take (8 - length (args ++ arg ∷ [])) rest
      ≡ args ++ take (8 - length args) (arg ∷ rest)
take-next args arg rest room =
    let m = 7 - length args in
    let after : 8 - length (args ++ arg ∷ []) ≡ m = omega (arith, length-append args (arg ∷ [])) in
    let before : 8 - length args ≡ suc m = omega arith in
    ap (λ n. (args ++ arg ∷ []) ++ take n rest) after
    ∙ append_assoc args (arg ∷ []) (take m rest)
    ∙ ap (λ n. args ++ take n (arg ∷ rest)) (sym before)

take-out :
    (args rest : List (List ℕ)) → 8 ≤ length args → args ≡ args ++ take (8 - length args) rest
take-out args rest full =
    let none_left : 8 - length args ≡ 0 = omega arith in
    sym (ap (λ n. args ++ take n rest) none_left ∙ append-none args)

-- An argument that ends here.
end_arg :
    (args : List (List ℕ)) (arg : List ℕ) (rest : List (List ℕ))
    → length args < 8
    → length arg ≤ 63
    → (args ++ arg ∷ []) ++ take (8 - length (args ++ arg ∷ [])) rest
      ≡ args ++ take (8 - length args) (take 63 (arg ++ []) ∷ rest)
end_arg args arg rest room short =
    take-next args arg rest room
    ∙ ap (λ a. args ++ take (8 - length args) (a ∷ rest))
        (sym (ap (take 63) (append-none arg) ∙ take-short 63 arg short))

at_end :
    (args : List (List ℕ)) (arg : List ℕ) (in_arg : Bool)
    → length arg ≤ 63
    → (if in_arg && ltb (length args) 8 then args ++ arg ∷ [] else args)
      ≡ args ++ take (8 - length args) (cut (pending in_arg arg ([], [])))
at_end args arg false short =
    sym (ap (λ l. args ++ l) (take-none (8 - length args)) ∙ append-none args)
at_end args arg true short = elim (Bool-cases (ltb (length args) 8)) [
  | inl room ↦ rw room (
      sym (
        ap (λ l. (args ++ arg ∷ []) ++ l) (take-none (8 - length (args ++ arg ∷ [])))
        ∙ append-none (args ++ arg ∷ []))
      ∙ end_arg args arg [] (ground arith) short)
  | inr full ↦ rw full (take-out args (take 63 (arg ++ []) ∷ []) (ground arith))
]

-- A byte more, in an argument with room and in one without.
longer_arg :
    (args : List (List ℕ)) (arg w : List ℕ) (ws : List (List ℕ)) (c : ℕ) (in_arg : Bool)
    → (in_arg ≡ false → arg ≡ [])
    → args ++ take (8 - length args) (cut (pending true (arg ++ c ∷ []) (w, ws)))
      ≡ args ++ take (8 - length args) (cut (pending in_arg arg (c ∷ w, ws)))
longer_arg args arg w ws c true fresh =
    ap (λ a. args ++ take (8 - length args) (take 63 a ∷ cut ws)) (append_assoc arg (c ∷ []) w)
longer_arg args arg w ws c false fresh =
    ap (λ a. args ++ take (8 - length args) (take 63 ((a ++ c ∷ []) ++ w) ∷ cut ws)) (fresh refl)

dropped_byte :
    (args : List (List ℕ)) (arg w : List ℕ) (ws : List (List ℕ)) (c : ℕ) (in_arg : Bool)
    → length arg ≡ 63
    → (in_arg ≡ false → arg ≡ [])
    → args ++ take (8 - length args) (cut (pending true arg (w, ws)))
      ≡ args ++ take (8 - length args) (cut (pending in_arg arg (c ∷ w, ws)))
dropped_byte args arg w ws c true full fresh =
    ap (λ a. args ++ take (8 - length args) (a ∷ cut ws))
      (take-full 63 arg w full ∙ sym (take-full 63 arg (c ∷ w) full))
dropped_byte args arg w ws c false full fresh =
    absurd (omega (arith, full, ap (λ (l : List ℕ). length l) (fresh refl)))

blank_byte :
    (cs : List ℕ) (args : List (List ℕ)) (arg : List ℕ) (in_arg : Bool) (ended left : List (List ℕ))
    → length args < 8
    → length arg ≤ 63
    → ended ≡ (args ++ arg ∷ []) ++ take (8 - length (args ++ arg ∷ [])) (cut (words cs))
    → (in_arg ≡ false → left ≡ args ++ take (8 - length args) (cut (words cs)))
    → (if in_arg then ended else left)
      ≡ args ++ take (8 - length args) (cut (pending in_arg arg ([], words cs)))
blank_byte cs args arg true ended left room short e e' =
    e ∙ end_arg args arg (cut (words cs)) room short
blank_byte cs args arg false ended left room short e e' = e' refl

parse_from-words :
    (cs : List ℕ) (args : List (List ℕ)) (arg : List ℕ) (in_arg : Bool)
    → length arg ≤ 63
    → (in_arg ≡ false → arg ≡ [])
    → parse_from cs args arg in_arg
      ≡ args ++ take (8 - length args) (cut (pending in_arg arg (first_word cs)))
unfolding parse_from
parse_from-words [] args arg in_arg short fresh = at_end args arg in_arg short
parse_from-words (c ∷ cs) args arg in_arg short fresh = elim (Bool-cases (ltb (length args) 8)) [
  | inr full ↦
      rw full (take-out args (cut (pending in_arg arg (first_word (c ∷ cs)))) (ground arith))
  | inl room ↦ elim (Bool-cases (blank c)) [
    | inl between ↦
        rw (room, between)
          (blank_byte cs args arg in_arg (parse_from cs (args ++ arg ∷ []) [] false)
            (parse_from cs args arg in_arg) (ground arith) short
            (parse_from-words cs (args ++ arg ∷ []) [] false (omega arith) (λ e. refl))
            (λ e.
              parse_from-words cs args arg in_arg short fresh
              ∙ ap (λ b. args ++ take (8 - length args) (cut (pending b arg (first_word cs)))) e))
    | inr inside ↦ elim (Bool-cases (ltb (length arg) 63)) [
      | inl more ↦
          rw (room, inside, more)
            (parse_from-words cs args (arg ++ c ∷ []) true
                (ground (arith, length-append arg (c ∷ []))) (λ e. absurd (ground (arith, e)))
              ∙ longer_arg args arg (first_word cs).0 (first_word cs).1 c in_arg fresh)
      | inr enough ↦
          rw (room, inside, enough)
            (parse_from-words cs args arg true short (λ e. absurd (ground (arith, e)))
              ∙ dropped_byte args arg (first_word cs).0 (first_word cs).1 c in_arg (ground arith)
                  fresh)
    ]
  ]
]

-- `parse_command_line` gives the first eight words of the line, each cut to 63 bytes.
pub parse_command_line-words :
    (cmdline : List ℕ) → parse_command_line cmdline ≡ take 8 (map (take 63) (words cmdline))
unfolding parse_command_line
parse_command_line-words cmdline = parse_from-words cmdline [] [] false (omega arith) (λ e. refl)
