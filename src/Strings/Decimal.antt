-- ===== src/Strings/Decimal.antt =====
-- Decimal numbers of kernel/string.c: atoi reads what itoa writes.
use claude_os_20day_challeng.Base.{
  ℕ, zero, suc, ◌+◌, ◌-◌, ◌*◌, ◌/◌, ◌%◌, ◌^◌, ◌<◌, ◌≡◌, ◌≢◌, refl, ap, ◌∙◌, true, false, ◌||◌, some,
  List, [], ◌∷◌, ◌++◌, ◌==◌, sub32, is_negative, u32_mod, arith, Bool-cases, inl, inr,
}
use claude_os_20day_challeng.Strings.{
  reverse, digit, digits, itoa, is_digit, read_digits, skip_blanks, read_signed, atoi,
}

abbrev AllDigits : List ℕ → Type 0
AllDigits [] = Unit {0}
AllDigits (c ∷ str) = (is_digit c ≡ true) × AllDigits str

AllDigits-append : (xs ys : List ℕ) → AllDigits xs → AllDigits ys → AllDigits (xs ++ ys)
AllDigits-append [] ys h k = k
AllDigits-append (x ∷ xs) ys h k = (h.0, AllDigits-append xs ys h.1 k)

read_digits-append :
    (result : ℕ) (xs ys : List ℕ)
    → AllDigits xs
    → read_digits result (xs ++ ys) ≡ read_digits (read_digits result xs) ys
unfolding read_digits
read_digits-append result [] ys h = refl
read_digits-append result (x ∷ xs) ys h =
    rw (h.0) (read_digits-append ((result * 10 + (x - b'0')) % u32_mod) xs ys h.1)

digit-IsDigit : (d : ℕ) → d < 10 → is_digit (digit d) ≡ true
digit-IsDigit d lt = ground arith

digits-AllDigits : (fuel value : ℕ) → AllDigits (reverse (digits fuel value 10))
unfolding digits
digits-AllDigits zero value = tt
digits-AllDigits (suc fuel) value =
    let here = digit-IsDigit (value % 10) (omega arith) in
    elim (Bool-cases (value / 10 == 0)) [
      | inl t ↦ rw t (here, tt)
      | inr f ↦ rw f (AllDigits-append _ _ (digits-AllDigits fuel (value / 10)) (here, tt))
    ]

read_digit :
    (result d : ℕ) → d < 10 → read_digits result (digit d ∷ []) ≡ (result * 10 + d) % u32_mod
unfolding read_digits
read_digit result d lt = ground arith

-- The digits of a value that fits are read as the value, if the fuel is more than the value.
read_digits-digits :
    (fuel value : ℕ)
    → value < fuel
    → value < u32_mod
    → read_digits 0 (reverse (digits fuel value 10)) ≡ value
unfolding digits
read_digits-digits zero value enough small = absurd (omega arith)
read_digits-digits (suc fuel) value enough small = elim (Bool-cases (value / 10 == 0)) [
  | inl t ↦
      let less : value / 10 ≡ 0 = ground arith in
      rw t (read_digit 0 (value % 10) (omega arith) ∙ omega arith)
  | inr f ↦
      let more : value / 10 ≢ 0 = ground arith in
      let rest = read_digits-digits fuel (value / 10) (omega arith) (omega arith) in
      rw f (
        read_digits-append 0 (reverse (digits fuel (value / 10) 10)) _
          (digits-AllDigits fuel (value / 10))
        ∙ read_digit _ (value % 10) (omega arith)
        ∙ ap (λ r. (r * 10 + value % 10) % u32_mod) rest
        ∙ omega arith)
]

-- A text of digits alone is read from its first character on.
atoi-AllDigits : (str : List ℕ) → AllDigits str → atoi str ≡ read_digits 0 str
unfolding atoi skip_blanks read_signed read_digits
atoi-AllDigits [] h = refl
atoi-AllDigits (c ∷ str) h =
    let no_blank : (c == b' ' || c == 9) ≡ false = ground (arith, h.0) in
    let no_minus : (c == b'-') ≡ false = ground (arith, h.0) in
    let no_plus : (c == b'+') ≡ false = ground (arith, h.0) in
    rw no_blank (rw (no_minus, no_plus) refl)

atoi_minus : (str : List ℕ) → atoi (b'-' ∷ str) ≡ sub32 0 (read_digits 0 str)
unfolding atoi skip_blanks read_signed
atoi_minus str = refl

-- For every int but -2 ^ 31, itoa in base 10 gives a text, and atoi reads the text as that int.
pub atoi-itoa :
    (value : ℕ)
    → value < u32_mod
    → value ≢ 2 ^ 31
    → (str : List ℕ) × (itoa value 10 ≡ some str) × (atoi str ≡ value)
unfolding itoa
atoi-itoa value small other = elim (Bool-cases (is_negative value)) [
  | inl minus ↦
      let size = 2 ^ 32 - value in
      let representable : (value == 2 ^ 31) ≡ false = ground arith in
      let read = read_digits-digits (size + 1) size (omega arith) (ground arith) in
      (
        _,
        rw (minus, representable, itoa) refl,
        atoi_minus (reverse (digits (size + 1) size 10)) ∙ ap (sub32 0) read ∙ ground arith,
      )
  | inr plus ↦ (
    _,
    rw (plus, itoa) refl,
    atoi-AllDigits (reverse (digits (value + 1) value 10)) (digits-AllDigits (value + 1) value)
        ∙ read_digits-digits (value + 1) value (omega arith) small,
  )
]
