-- ===== src/Pmm/Count.antt =====
-- The number of free pages that a bitmap shows, and the search for one.
use claude_os_20day_challeng.Base.{
  ℕ, zero, suc, ◌+◌, ◌/◌, ◌<◌, ◌≤◌, ◌≡◌, refl, get_or, true, false, List, length, none, some, ◌==◌,
  if◌then◌else◌, Bool-cases, inl, inr, replicate, arith,
}
use claude_os_20day_challeng.Pmm.{set_bit, clear_bit, test_bit, scan}
use claude_os_20day_challeng.Pmm.Bits.{Bytes, test-set_bit, test-clear_bit}

-- The clear bits below `n`.
unfoldable pub count_clear : List ℕ → ℕ → ℕ
count_clear bitmap zero = 0
count_clear bitmap (suc n) = (if test_bit bitmap n then 0 else 1) + count_clear bitmap n

pub count_clear-le : (bitmap : List ℕ) (n : ℕ) → count_clear bitmap n ≤ n
unfolding count_clear
count_clear-le bitmap zero = omega arith
count_clear-le bitmap (suc n) = ground (arith, count_clear-le bitmap n)

-- A clear bit counts.
pub count_clear-pos :
    (bitmap : List ℕ) (n i : ℕ) → i < n → test_bit bitmap i ≡ false → 0 < count_clear bitmap n
unfolding count_clear
count_clear-pos bitmap zero i h e = absurd (omega arith)
count_clear-pos bitmap (suc n) i h e = elim (Bool-cases (i == n)) [
  | inl t ↦
      let same : i ≡ n = ground arith in
      let clear : test_bit bitmap n ≡ false = rw (← same) e in ground arith
  | inr f ↦ ground (arith, count_clear-pos bitmap n i)
]

module _ (bitmap : List ℕ) (bytes : Bytes bitmap) (i : ℕ) (inside : i / 8 < length bitmap) where
  pub count_clear-set_bit_past :
      (n : ℕ) → n ≤ i → count_clear (set_bit bitmap i) n ≡ count_clear bitmap n
  unfolding count_clear
  count_clear-set_bit_past zero h = refl
  count_clear-set_bit_past (suc n) h =
      ground (arith, test-set_bit bitmap bytes i inside n, count_clear-set_bit_past n)

  pub count_clear-set_bit :
      (n : ℕ)
      → i < n
      → test_bit bitmap i ≡ false
      → suc (count_clear (set_bit bitmap i) n) ≡ count_clear bitmap n
  unfolding count_clear
  count_clear-set_bit zero h e = absurd (omega arith)
  count_clear-set_bit (suc n) h e = elim (Bool-cases (i == n)) [
    | inl t ↦
        let same : i ≡ n = ground arith in
        let clear : test_bit bitmap n ≡ false = rw (← same) e in
        ground (arith, test-set_bit bitmap bytes i inside n, count_clear-set_bit_past n)
    | inr f ↦ ground (arith, test-set_bit bitmap bytes i inside n, count_clear-set_bit n)
  ]

  count_clear-clear_bit_past :
      (n : ℕ) → n ≤ i → count_clear (clear_bit bitmap i) n ≡ count_clear bitmap n
  unfolding count_clear
  count_clear-clear_bit_past zero h = refl
  count_clear-clear_bit_past (suc n) h =
      ground (arith, test-clear_bit bitmap bytes i inside n, count_clear-clear_bit_past n)

  pub count_clear-clear_bit :
      (n : ℕ)
      → i < n
      → test_bit bitmap i ≡ true
      → count_clear (clear_bit bitmap i) n ≡ suc (count_clear bitmap n)
  unfolding count_clear
  count_clear-clear_bit zero h e = absurd (omega arith)
  count_clear-clear_bit (suc n) h e = elim (Bool-cases (i == n)) [
    | inl t ↦
        let same : i ≡ n = ground arith in
        let set : test_bit bitmap n ≡ true = rw (← same) e in
        ground (arith, test-clear_bit bitmap bytes i inside n, count_clear-clear_bit_past n)
    | inr f ↦ ground (arith, test-clear_bit bitmap bytes i inside n, count_clear-clear_bit n)
  ]

module _ (bitmap : List ℕ) where
  -- The page found is in the range searched, and is free.
  pub scan-some :
      (n i j : ℕ) → scan bitmap n i ≡ some j → (i ≤ j) × (j < i + n) × (test_bit bitmap j ≡ false)
  unfolding scan
  scan-some zero i j h = cc
  scan-some (suc n) i j h = elim (Bool-cases (test_bit bitmap i)) [
    | inl t ↦ ground (arith, scan-some n (i + 1) j)
    | inr f ↦ let here : i ≡ j = ground arith in (omega arith, omega arith, rw (← here) f)
  ]

  -- Every page of the range is in use, if none is found.
  pub scan-none :
      (n i j : ℕ) → scan bitmap n i ≡ none → i ≤ j → j < i + n → test_bit bitmap j ≡ true
  unfolding scan
  scan-none zero i j h le lt = absurd (omega arith)
  scan-none (suc n) i j h le lt = elim (Bool-cases (test_bit bitmap i)) [
    | inl t ↦ elim (Bool-cases (i == j)) [
      | inl e ↦ let here : i ≡ j = ground arith in rw (← here) t
      | inr ne ↦ ground (arith, scan-none n (i + 1) j)
    ]
    | inr f ↦ ground arith
  ]

  pub count_clear_of_all_set :
      (n : ℕ) → ((j : ℕ) → j < n → test_bit bitmap j ≡ true) → count_clear bitmap n ≡ 0
  unfolding count_clear
  count_clear_of_all_set zero h = refl
  count_clear_of_all_set (suc n) h =
      ground (arith, h n, count_clear_of_all_set n (λ j lt. h j (omega arith)))

pub get_or-zeros : (m k : ℕ) → get_or {A = ℕ} (replicate m 0) k 0 ≡ 0
get_or-zeros zero k = refl
get_or-zeros (suc m) zero = refl
get_or-zeros (suc m) (suc k) = get_or-zeros m k
