-- ===== src/Strings.antt =====
-- The string routines of kernel/string.c. A C string is the list of its bytes before the NUL, a buffer
-- the list of all its bytes; what a routine would read or write past a buffer is left out.
mod Decimal
mod Tests
use claude_os_20day_challeng.Base.{
  ℕ, zero, suc, ◌+◌, ◌-◌, ◌*◌, ◌/◌, ◌%◌, ◌^◌, Bool, true, false, not, ◌&&◌, ◌||◌, Option, none,
  some, List, [], ◌∷◌, ◌++◌, length, take, ltb, leb, ◌==◌, if◌then◌else◌, sub32, minus_one,
  is_negative, u32_mod,
}
use mathlib.Core.Option

-- `memset`: the buffer afterwards.
unfoldable pub memset : List ℕ → ℕ → ℕ → List ℕ
memset dest value zero = dest
memset [] value (suc count) = []
memset (d ∷ dest) value (suc count) = (value % 256) ∷ memset dest value count

-- `memcpy`: the buffer afterwards.
unfoldable pub memcpy : List ℕ → List ℕ → ℕ → List ℕ
memcpy dest src zero = dest
memcpy [] src (suc count) = []
memcpy (d ∷ dest) [] (suc count) = d ∷ dest
memcpy (d ∷ dest) (x ∷ src) (suc count) = x ∷ memcpy dest src count

-- `memcmp`.
unfoldable pub memcmp : List ℕ → List ℕ → ℕ → ℕ
memcmp (x ∷ xs) (y ∷ ys) (suc count) =
    let rest = memcmp xs ys count in if ltb x y then minus_one else (if ltb y x then 1 else rest)
memcmp _ _ _ = 0

-- `strcpy` into a buffer that is large enough: the string and its NUL are written over the start.
unfoldable pub strcpy : List ℕ → List ℕ → List ℕ
strcpy dest src = memcpy dest (src ++ 0 ∷ []) (length src + 1)

-- `strncpy`: the `count` bytes that are written.
unfoldable pub strncpy : List ℕ → ℕ → List ℕ
strncpy src zero = []
strncpy [] (suc count) = 0 ∷ strncpy [] count
strncpy (x ∷ src) (suc count) = x ∷ strncpy src count

-- `strcmp`, as an `int`: the bytes are compared unsigned.
unfoldable pub strcmp : List ℕ → List ℕ → ℕ
strcmp [] [] = 0
strcmp [] (y ∷ ys) = sub32 0 y
strcmp (x ∷ xs) [] = x
strcmp (x ∷ xs) (y ∷ ys) = let rest = strcmp xs ys in if x == y then rest else sub32 x y

-- `strncmp`, as an `int`.
unfoldable pub strncmp : List ℕ → List ℕ → ℕ → ℕ
strncmp xs ys zero = 0
strncmp [] [] (suc count) = 0
strncmp [] (y ∷ ys) (suc count) = sub32 0 y
strncmp (x ∷ xs) [] (suc count) = x
strncmp (x ∷ xs) (y ∷ ys) (suc count) =
    let rest = strncmp xs ys count in if x == y then rest else sub32 x y

-- `strcat`: the string in `dest` afterwards.
unfoldable pub strcat : List ℕ → List ℕ → List ℕ
strcat dest src = dest ++ src

-- `strchr`: the index of the character, that of the NUL if the character is 0.
unfoldable pub strchr : List ℕ → ℕ → Option ℕ
strchr [] ch = if ch % 256 == 0 then some 0 else none
strchr (x ∷ xs) ch =
    let rest = strchr xs ch in if x == ch % 256 then some 0 else Option.map suc rest

abbrev pub reverse : List ℕ → List ℕ
reverse [] = []
reverse (x ∷ xs) = reverse xs ++ x ∷ []

-- `"0123456789abcdef"[d]`.
abbrev pub digit : ℕ → ℕ
digit d = if ltb d 10 then b'0' + d else b'a' + (d - 10)

-- The do-while loop of `itoa` on a value that is not negative: the digits from the last one.
unfoldable pub digits : ℕ → ℕ → ℕ → List ℕ
digits zero value base = []
digits (suc fuel) value base =
    let rest = digits fuel (value / base) base in
    if value / base == 0 then digit (value % base) ∷ [] else digit (value % base) ∷ rest

-- `itoa` with a base from 2 to 16. It is none where the code reads in front of its table of digits: for
-- a negative value in another base than 10, and for -2 ^ 31.
unfoldable pub itoa : ℕ → ℕ → Option (List ℕ)
itoa value base =
    if is_negative value
    then (if base == 10 && not (value == 2 ^ 31)
        then some (b'-' ∷ reverse (digits (2 ^ 32 - value + 1) (2 ^ 32 - value) base))
        else none)
    else some (reverse (digits (value + 1) value base))

-- `int_to_string` for a value other than -2 ^ 31, whose loop is that of `itoa` in base 10.
unfoldable pub int_to_string : ℕ → List ℕ
int_to_string value =
    if value == 0
    then b'0' ∷ []
    else (if is_negative value
        then reverse (digits (2 ^ 32 - value + 1) (2 ^ 32 - value) 10 ++ b'-' ∷ [])
        else reverse (digits (value + 1) value 10))

abbrev pub is_digit : ℕ → Bool
is_digit c = leb b'0' c && leb c b'9'

-- The loop of `atoi`, with an `int` that wraps.
unfoldable pub read_digits : ℕ → List ℕ → ℕ
read_digits result [] = result
read_digits result (c ∷ str) =
    let rest = read_digits ((result * 10 + (c - b'0')) % u32_mod) str in
    if is_digit c then rest else result

unfoldable pub skip_blanks : List ℕ → List ℕ
skip_blanks [] = []
skip_blanks (c ∷ str) = let rest = skip_blanks str in if c == b' ' || c == 9 then rest else c ∷ str

unfoldable pub read_signed : List ℕ → ℕ
read_signed [] = 0
read_signed (c ∷ str) =
    if c == b'-'
    then sub32 0 (read_digits 0 str)
    else (if c == b'+' then read_digits 0 str else read_digits 0 (c ∷ str))

-- `atoi`, as an `int`.
unfoldable pub atoi : List ℕ → ℕ
unfolding read_signed
atoi str = read_signed (skip_blanks str)
