-- ===== src/MemFs/Text.antt =====
-- C strings, as the lists of their bytes before the NUL, and the string helpers of
-- fs/memfs_simple.c.
use claude_os_20day_challeng.Base.{
  ℕ, zero, suc, ◌+◌, ◌-◌, ◌^◌, ◌<◌, ◌≤◌, ◌≡◌, ◌≢◌, refl, ap, Bool, true, false, ◌||◌, ◌&&◌, List,
  [], ◌∷◌, length, take, ltb, ◌==◌, if◌then◌else◌, sub32, Bool-cases, inl, inr, arith,
}

-- A `char` is signed: its value as an `int`.
abbrev pub sign_extend : ℕ → ℕ
sign_extend b = if ltb b 128 then b else b + (2 ^ 32 - 256)

-- `simple_strcmp`, as an `int`.
unfoldable pub simple_strcmp : List ℕ → List ℕ → ℕ
simple_strcmp [] [] = 0
simple_strcmp [] (y ∷ ys) = sub32 0 (sign_extend y)
simple_strcmp (x ∷ xs) [] = sign_extend x
simple_strcmp (x ∷ xs) (y ∷ ys) =
    if x == y then simple_strcmp xs ys else sub32 (sign_extend x) (sign_extend y)

-- `simple_strcpy` into a buffer of `max_len` bytes.
abbrev pub simple_strcpy : List ℕ → ℕ → List ℕ
simple_strcpy src max_len = take (sub32 max_len 1) src

-- `name` occurs at the start of `text`.
unfoldable pub starts : List ℕ → List ℕ → Bool
starts [] text = true
starts (x ∷ xs) [] = false
starts (x ∷ xs) (y ∷ ys) = x == y && starts xs ys

-- `name` occurs in `text`: the substring search of `memfs_simple_find`.
unfoldable pub occurs : List ℕ → List ℕ → Bool
occurs name [] = starts name []
occurs name (y ∷ ys) = starts name (y ∷ ys) || occurs name ys

-- The bytes of a C string: none of them is NUL.
abbrev pub IsText : List ℕ → Type 0
IsText [] = Unit {0}
IsText (x ∷ xs) = (0 < x) × (x < 256) × IsText xs

sign_extend-inj : (x y : ℕ) → x < 256 → y < 256 → sub32 (sign_extend x) (sign_extend y) ≡ 0 → x ≡ y
sign_extend-inj x y hx hy h = ground arith

sign_extend-pos : (x : ℕ) → 0 < x → x < 256 → sign_extend x ≢ 0
sign_extend-pos x pos h e = ground arith

sub32-sign_extend-pos : (x : ℕ) → 0 < x → x < 256 → sub32 0 (sign_extend x) ≢ 0
sub32-sign_extend-pos x pos h e = ground arith

pub simple_strcmp_self : (xs : List ℕ) → simple_strcmp xs xs ≡ 0
unfolding simple_strcmp
simple_strcmp_self [] = refl
simple_strcmp_self (x ∷ xs) = ground (arith, simple_strcmp_self xs)

-- Two strings compare equal exactly when they are.
pub simple_strcmp-eq : (xs ys : List ℕ) → IsText xs → IsText ys → simple_strcmp xs ys ≡ 0 → xs ≡ ys
unfolding simple_strcmp
simple_strcmp-eq [] [] tx ty h = refl
simple_strcmp-eq [] (y ∷ ys) tx ty h = absurd (sub32-sign_extend-pos y ty.0 ty.1 h)
simple_strcmp-eq (x ∷ xs) [] tx ty h = absurd (sign_extend-pos x tx.0 tx.1 h)
simple_strcmp-eq (x ∷ xs) (y ∷ ys) tx ty h = elim (Bool-cases (x == y)) [
  | inl e ↦
      let same : x ≡ y = ground arith in
      let rest : simple_strcmp xs ys ≡ 0 = ground arith in
      rw (same, simple_strcmp-eq xs ys tx.2 ty.2 rest) refl
  | inr n ↦ let same = sign_extend-inj x y tx.1 ty.1 (ground arith) in absurd (ground arith)
]

-- A name that fits is copied whole.
pub take_all : (n : ℕ) (xs : List ℕ) → length xs ≤ n → take n xs ≡ xs
take_all zero [] h = refl
take_all zero (x ∷ xs) h = absurd (omega arith)
take_all (suc n) [] h = refl
take_all (suc n) (x ∷ xs) h = ap (◌∷◌ x) (take_all n xs (omega arith))
