-- ===== src/Pmm/Bits.antt =====
-- The bitmap of kernel/pmm.c as an array of bits: what `set_bit` and `clear_bit` do to each.
use Prim.Native.Nat.{bit_and, bit_or}
use claude_os_20day_challeng.Base.{
  ℕ, ◌-◌, ◌/◌, ◌%◌, ◌^◌, ◌<◌, ◌≡◌, ◌≢◌, refl, Bool, true, not, ◌&&◌, ◌||◌, List, length, get_or,
  modify, get_or-modify_self, get_or-modify_ne, ltb, ◌==◌, ltb→lt, if◌then◌else◌, ℕ_discrete,
  each_below, each_below-lt, arith,
}
use claude_os_20day_challeng.Pmm.{set_bit, clear_bit, test_bit}

abbrev byte_test : ℕ → ℕ → Bool
byte_test b k = ltb 0 (bit_and b (2 ^ k))

abbrev same : Bool → Bool → Bool
same a b = if a then b else not b

same-eq : (a b : Bool) → same a b ≡ true → a ≡ b
same-eq a b h = ground arith

and_right : (a b : Bool) → (a && b) ≡ true → b ≡ true
and_right a b h = ground arith

and_left : (a b : Bool) → (a && b) ≡ true → a ≡ true
and_left a b h = ground arith

abbrev set_at : ℕ → ℕ → ℕ
set_at b i = bit_or b (2 ^ i)

abbrev clear_at : ℕ → ℕ → ℕ
clear_at b i = bit_and b (255 - 2 ^ i)

abbrev set_entry : ℕ → ℕ → ℕ → Bool
set_entry b i j = same (byte_test (set_at b i) j) (i == j || byte_test b j)

abbrev clear_entry : ℕ → ℕ → ℕ → Bool
clear_entry b i j = same (byte_test (clear_at b i) j) (not (i == j) && byte_test b j)

abbrev set_row : ℕ → ℕ → Bool
set_row b i = ltb (set_at b i) 256 && each_below 8 (set_entry b i)

abbrev clear_row : ℕ → ℕ → Bool
clear_row b i = ltb (clear_at b i) 256 && each_below 8 (clear_entry b i)

set_table : each_below 256 (λ b. each_below 8 (set_row b)) ≡ true
unfolding each_below
set_table = refl

clear_table : each_below 256 (λ b. each_below 8 (clear_row b)) ≡ true
unfolding each_below
clear_table = refl

set_row_lem : (b i : ℕ) → b < 256 → i < 8 → set_row b i ≡ true
set_row_lem b i hb hi =
    each_below-lt 8 (set_row b) i (each_below-lt 256 (λ c. each_below 8 (set_row c)) b set_table hb)
      hi

clear_row_lem : (b i : ℕ) → b < 256 → i < 8 → clear_row b i ≡ true
clear_row_lem b i hb hi =
    each_below-lt 8 (clear_row b) i
      (each_below-lt 256 (λ c. each_below 8 (clear_row c)) b clear_table hb) hi

set_at-lt : (b i : ℕ) → b < 256 → i < 8 → set_at b i < 256
set_at-lt b i hb hi =
    ltb→lt _ _
      (and_left (ltb (set_at b i) 256) (each_below 8 (set_entry b i)) (set_row_lem b i hb hi))

clear_at-lt : (b i : ℕ) → b < 256 → i < 8 → clear_at b i < 256
clear_at-lt b i hb hi =
    ltb→lt _ _
      (and_left (ltb (clear_at b i) 256) (each_below 8 (clear_entry b i)) (clear_row_lem b i hb hi))

test-set_at :
    (b i j : ℕ) → b < 256 → i < 8 → j < 8 → byte_test (set_at b i) j ≡ (i == j || byte_test b j)
test-set_at b i j hb hi hj = same-eq _ _ (
    each_below-lt 8 (set_entry b i) j
      (and_right (ltb (set_at b i) 256) (each_below 8 (set_entry b i)) (set_row_lem b i hb hi)) hj)

test-clear_at :
    (b i j : ℕ)
    → b < 256
    → i < 8
    → j < 8
    → byte_test (clear_at b i) j ≡ (not (i == j) && byte_test b j)
test-clear_at b i j hb hi hj = same-eq _ _ (
    each_below-lt 8 (clear_entry b i) j
      (and_right (ltb (clear_at b i) 256) (each_below 8 (clear_entry b i))
        (clear_row_lem b i hb hi))
      hj)

-- Two pages of one byte are the same page if they have the same bit of it.
same_bit : (i j : ℕ) → i / 8 ≡ j / 8 → (i % 8 == j % 8) ≡ (i == j)
same_bit i j h = ground arith

other_byte : (i j : ℕ) → i / 8 ≢ j / 8 → (i == j) ≡ Bool.false
other_byte i j h = ground arith

abbrev pub Bytes : List ℕ → Type 0
Bytes bitmap = (k : ℕ) → get_or bitmap k 0 < 256

module _ (bitmap : List ℕ) (bytes : Bytes bitmap) (i : ℕ) (inside : i / 8 < length bitmap) where
  modify-Bytes : (f : ℕ → ℕ) → f (get_or bitmap (i / 8) 0) < 256 → Bytes (modify bitmap (i / 8) f)
  modify-Bytes f h k = elim (ℕ_discrete (i / 8) k) [
    | yes e ↦ rw (← e, get_or-modify_self bitmap (i / 8) f 0 inside) h
    | no n ↦ rw (get_or-modify_ne bitmap (i / 8) k f 0 n) (bytes k)
  ]

  pub set_bit-Bytes : Bytes (set_bit bitmap i)
  unfolding set_bit
  set_bit-Bytes = modify-Bytes _ (set_at-lt _ (i % 8) (bytes _) (omega arith))

  pub clear_bit-Bytes : Bytes (clear_bit bitmap i)
  unfolding clear_bit
  clear_bit-Bytes = modify-Bytes _ (clear_at-lt _ (i % 8) (bytes _) (omega arith))

  pub test-set_bit : (j : ℕ) → test_bit (set_bit bitmap i) j ≡ (i == j || test_bit bitmap j)
  unfolding set_bit test_bit
  test-set_bit j = elim (ℕ_discrete (i / 8) (j / 8)) [
    | yes e ↦
        rw
          (
            ← e,
            get_or-modify_self bitmap (i / 8) (λ b. set_at b (i % 8)) 0 inside,
            ← same_bit i j e,
          )
          (test-set_at (get_or bitmap (i / 8) 0) (i % 8) (j % 8) (bytes _) (omega arith)
            (omega arith))
    | no n ↦
        rw (get_or-modify_ne bitmap (i / 8) (j / 8) (λ b. set_at b (i % 8)) 0 n, other_byte i j n)
          refl
  ]

  pub test-clear_bit :
      (j : ℕ) → test_bit (clear_bit bitmap i) j ≡ (not (i == j) && test_bit bitmap j)
  unfolding clear_bit test_bit
  test-clear_bit j = elim (ℕ_discrete (i / 8) (j / 8)) [
    | yes e ↦
        rw
          (
            ← e,
            get_or-modify_self bitmap (i / 8) (λ b. clear_at b (i % 8)) 0 inside,
            ← same_bit i j e,
          )
          (test-clear_at (get_or bitmap (i / 8) 0) (i % 8) (j % 8) (bytes _) (omega arith)
            (omega arith))
    | no n ↦
        rw (get_or-modify_ne bitmap (i / 8) (j / 8) (λ b. clear_at b (i % 8)) 0 n, other_byte i j n)
          refl
  ]
