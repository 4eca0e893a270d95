-- ===== src/Base/Scan.antt =====
-- The loops `for (i = 0; i < N; i++) if (test(table[i])) ...` over a table of slots: the first slot
-- that passes a test, and the number of slots that do.
use Prim.Native.Nat.{ℕ, zero, suc, ◌+◌, ◌<◌, ◌≤◌}
use mathlib.Core.Path.{◌≡◌, refl}
use mathlib.Core.Bool.{Bool, true, false}
use mathlib.Core.Logic.{inl, inr}
use mathlib.Core.List.{List, [], ◌∷◌}
use mathlib.Core.Option
use mathlib.Core.Option.{Option, none, some}
use native.Mathlib.Omega.{arith}
use claude_os_20day_challeng.Base.Tests.{if◌then◌else◌, Bool-cases}
use claude_os_20day_challeng.Base.Arrays.{length, get_elem?, modify}

module _ {ℓ} {A : Type ℓ} where
  unfoldable pub find_index : (A → Bool) → List A → Option ℕ
  find_index p [] = none
  find_index p (x ∷ xs) = if p x then some 0 else Option.map suc (find_index p xs)

  unfoldable pub count_if : (A → Bool) → List A → ℕ
  count_if p [] = 0
  count_if p (x ∷ xs) = (if p x then 1 else 0) + count_if p xs

module _ {ℓ} {A : Type ℓ} (p : A → Bool) where
  -- The slot found passes the test.
  pub find_index-some :
      (xs : List A) (i : ℕ)
      → find_index p xs ≡ some i
      → (a : A) × (get_elem? xs i ≡ some a) × (p a ≡ true)
  unfolding find_index
  find_index-some [] i h = cc
  find_index-some (x ∷ xs) zero h = (x, refl, ground arith)
  find_index-some (x ∷ xs) (suc i) h = find_index-some xs i (ground arith)

  -- No slot before it does.
  pub find_index-first :
      (xs : List A) (i j : ℕ) (b : A)
      → find_index p xs ≡ some i
      → j < i
      → get_elem? xs j ≡ some b
      → p b ≡ false
  unfolding find_index
  find_index-first [] i j b h lt e = cc
  find_index-first (x ∷ xs) zero j b h lt e = absurd (omega arith)
  find_index-first (x ∷ xs) (suc i) zero b h lt e = ground arith
  find_index-first (x ∷ xs) (suc i) (suc j) b h lt e =
      find_index-first xs i j b (ground arith) (omega arith) e

  pub find_index-none :
      (xs : List A) (j : ℕ) (b : A) → find_index p xs ≡ none → get_elem? xs j ≡ some b → p b ≡ false
  unfolding find_index
  find_index-none [] j b h e = cc
  find_index-none (x ∷ xs) zero b h e = ground arith
  find_index-none (x ∷ xs) (suc j) b h e = find_index-none xs j b (ground arith) e

  pub find_index-lt : (xs : List A) (i : ℕ) → find_index p xs ≡ some i → i < length xs
  unfolding find_index
  find_index-lt [] i h = cc
  find_index-lt (x ∷ xs) zero h = omega arith
  find_index-lt (x ∷ xs) (suc i) h = omega (arith, find_index-lt xs i (ground arith))

  -- A slot that passes is found, or one before it.
  pub find_index-total :
      (xs : List A) (j : ℕ) (b : A)
      → get_elem? xs j ≡ some b
      → p b ≡ true
      → (i : ℕ) × (find_index p xs ≡ some i) × (i ≤ j)
  unfolding find_index
  find_index-total [] j b e h = cc
  find_index-total (x ∷ xs) zero b e h = (0, ground arith, omega arith)
  find_index-total (x ∷ xs) (suc j) b e h =
      let r = find_index-total xs j b e h in
      elim (Bool-cases (p x)) [
        | inl t ↦ (0, ground arith, omega arith)
        | inr f ↦ (suc r.0, ground (arith, r.1), omega (arith, r.2))
      ]

  pub find_index-none_count : (xs : List A) → find_index p xs ≡ none → count_if p xs ≡ 0
  unfolding find_index count_if
  find_index-none_count [] h = refl
  find_index-none_count (x ∷ xs) h = ground (arith, find_index-none_count xs)

  pub count_if-le_length : (xs : List A) → count_if p xs ≤ length xs
  unfolding count_if
  count_if-le_length [] = omega arith
  count_if-le_length (x ∷ xs) = ground (arith, count_if-le_length xs)

  -- A write to one slot moves the count by what the slot was and what it becomes.
  pub count_if-modify :
      (xs : List A) (i : ℕ) (f : A → A) (a : A)
      → get_elem? xs i ≡ some a
      → count_if p (modify xs i f) + (if p a then 1 else 0)
        ≡ count_if p xs + (if p (f a) then 1 else 0)
  unfolding count_if
  count_if-modify [] i f a h = cc
  count_if-modify (x ∷ xs) zero f a h = ground arith
  count_if-modify (x ∷ xs) (suc i) f a h = omega (arith, count_if-modify xs i f a h)

  -- Where the count is zero no slot passes.
  pub count_if-zero :
      (xs : List A) (j : ℕ) (b : A) → count_if p xs ≡ 0 → get_elem? xs j ≡ some b → p b ≡ false
  unfolding count_if
  count_if-zero [] j b h e = cc
  count_if-zero (x ∷ xs) zero b h e = ground arith
  count_if-zero (x ∷ xs) (suc j) b h e = count_if-zero xs j b (ground arith) e

  -- A write that keeps the test does not move the search.
  pub find_index-modify :
      (xs : List A) (i : ℕ) (f : A → A)
      → ((a : A) → p (f a) ≡ p a)
      → find_index p (modify xs i f) ≡ find_index p xs
  unfolding find_index
  find_index-modify [] i f same = refl
  find_index-modify (x ∷ xs) zero f same = rw (same x) refl
  find_index-modify (x ∷ xs) (suc i) f same = rw (find_index-modify xs i f same) refl

  -- Where no slot passes, a slot that is written to pass is the one found.
  pub find_index-modify_new :
      (xs : List A) (i : ℕ) (f : A → A) (a : A)
      → find_index p xs ≡ none
      → get_elem? xs i ≡ some a
      → p (f a) ≡ true
      → find_index p (modify xs i f) ≡ some i
  unfolding find_index
  find_index-modify_new [] i f a none_passes e h = cc
  find_index-modify_new (x ∷ xs) zero f a none_passes e h = ground arith
  find_index-modify_new (x ∷ xs) (suc i) f a none_passes e h =
      let rest : find_index p xs ≡ none = ground arith in
      ground (arith, find_index-modify_new xs i f a rest e h)

  -- Where no slot passes there is nothing to find.
  pub find_index_fails :
      (xs : List A)
      → ((j : ℕ) (b : A) → get_elem? xs j ≡ some b → p b ≡ false)
      → find_index p xs ≡ none
  unfolding find_index
  find_index_fails [] fails = refl
  find_index_fails (x ∷ xs) fails =
      let rest = find_index_fails xs (λ j. fails (suc j)) in
      let here = fails 0 x refl in rw (here, rest) refl
