-- ===== src/Strings/Tests.antt =====
-- Examples for kernel/string.c.
use claude_os_20day_challeng.Base.{
  ℕ, ◌^◌, ◌-◌, ◌≡◌, refl, none, some, List, [], ◌∷◌, minus_one, arith,
}
use claude_os_20day_challeng.MemFs.{codes}
use claude_os_20day_challeng.Strings.{
  itoa, digits, int_to_string, atoi, read_signed, read_digits, skip_blanks, strncpy, strchr, memcmp,
}
use claude_os_20day_challeng.Strings.Decimal.{atoi-itoa}

atoi-itoa_example : (str : List ℕ) × (itoa 507 10 ≡ some str) × (atoi str ≡ 507)
atoi-itoa_example = atoi-itoa 507 (omega arith) (λ e. omega arith)

itoa_minus : itoa (2 ^ 32 - 42) 10 ≡ some (codes "-42")
unfolding itoa digits
itoa_minus = refl

itoa_hex : itoa 48879 16 ≡ some (codes "beef")
unfolding itoa digits
itoa_hex = refl

int_to_string_minus : int_to_string (2 ^ 32 - 42) ≡ codes "-42"
unfolding int_to_string digits
int_to_string_minus = refl

atoi_blanks : atoi (codes "  +12x") ≡ 12
unfolding atoi read_signed read_digits skip_blanks
atoi_blanks = refl

strncpy_pads : strncpy (codes "ab") 4 ≡ 97 ∷ 98 ∷ 0 ∷ 0 ∷ []
unfolding strncpy
strncpy_pads = refl

strchr_missing : strchr (codes "abc") 120 ≡ none
unfolding strchr
strchr_missing = refl

memcmp_less : memcmp (codes "ab") (codes "ac") 2 ≡ minus_one
unfolding memcmp
memcmp_less = refl
