-- ===== src/Keyboard.antt =====
-- The keyboard driver of kernel/keyboard.c: the interrupt handler and its ring buffer. The port that is
-- read and the interrupt controller that is answered are left out: the scancode is an argument.
mod Ring
mod Tests
use claude_os_20day_challeng.Base.{
  ℕ, zero, suc, ◌+◌, ◌-◌, ◌%◌, Bool, true, false, not, ◌&&◌, ◌||◌, List, [], ◌∷◌, get_or, modify,
  length, ltb, leb, ◌==◌, if◌then◌else◌,
}

abbrev pub keyboard_buffer_size : ℕ
keyboard_buffer_size = 256

-- `scancode_to_ascii`.
unfoldable pub scancode_to_ascii : List ℕ
scancode_to_ascii =
    0 ∷ 0 ∷ b'1' ∷ b'2' ∷ b'3' ∷ b'4' ∷ b'5' ∷ b'6' ∷ b'7' ∷ b'8' ∷ b'9' ∷ b'0' ∷ b'-' ∷ b'=' ∷ 8
    ∷ 9 ∷ b'q' ∷ b'w' ∷ b'e' ∷ b'r' ∷ b't' ∷ b'y' ∷ b'u' ∷ b'i' ∷ b'o' ∷ b'p' ∷ b'[' ∷ b']' ∷ 10 ∷ 0
    ∷ b'a' ∷ b's' ∷ b'd' ∷ b'f' ∷ b'g' ∷ b'h' ∷ b'j' ∷ b'k' ∷ b'l' ∷ b';' ∷ 39 ∷ b'`' ∷ 0 ∷ 92
    ∷ b'z' ∷ b'x' ∷ b'c' ∷ b'v' ∷ b'b' ∷ b'n' ∷ b'm' ∷ b',' ∷ b'.' ∷ b'/' ∷ 0 ∷ b'*' ∷ 0 ∷ b' ' ∷ []

-- `scancode_to_ascii_shift`.
unfoldable pub scancode_to_ascii_shift : List ℕ
scancode_to_ascii_shift =
    0 ∷ 0 ∷ b'!' ∷ b'@' ∷ b'#' ∷ b'$' ∷ b'%' ∷ b'^' ∷ b'&' ∷ b'*' ∷ b'(' ∷ b')' ∷ b'_' ∷ b'+' ∷ 8
    ∷ 9 ∷ b'Q' ∷ b'W' ∷ b'E' ∷ b'R' ∷ b'T' ∷ b'Y' ∷ b'U' ∷ b'I' ∷ b'O' ∷ b'P' ∷ b'{' ∷ b'}' ∷ 10 ∷ 0
    ∷ b'A' ∷ b'S' ∷ b'D' ∷ b'F' ∷ b'G' ∷ b'H' ∷ b'J' ∷ b'K' ∷ b'L' ∷ b':' ∷ 34 ∷ b'~' ∷ 0 ∷ b'|'
    ∷ b'Z' ∷ b'X' ∷ b'C' ∷ b'V' ∷ b'B' ∷ b'N' ∷ b'M' ∷ b'<' ∷ b'>' ∷ b'?' ∷ 0 ∷ b'*' ∷ 0 ∷ b' ' ∷ []

pub record Keyboard : Type 0 where
  pub shift_pressed : Bool
  pub caps_lock : Bool
  pub ctrl_pressed : Bool
  pub keyboard_buffer : List ℕ
  pub buffer_start : ℕ
  pub buffer_end : ℕ

-- `keyboard_init`.
unfoldable pub init : Keyboard → Keyboard
init s = record s {
  buffer_start = 0;
  buffer_end = 0;
  shift_pressed = false;
  caps_lock = false;
  ctrl_pressed = false;
}

abbrev pub is_shift : ℕ → Bool
is_shift scancode = scancode == 0x2A || scancode == 0x36

abbrev pub is_ctrl : ℕ → Bool
is_ctrl scancode = scancode == 0x1D

-- A key release, the release flag removed.
unfoldable pub release : ℕ → Keyboard → Keyboard
release scancode s =
    if is_shift scancode
    then record s { shift_pressed = false }
    else (if is_ctrl scancode then record s { ctrl_pressed = false } else s)

-- The character of a key that is pressed, 0 if it has none.
unfoldable pub ascii_of : ℕ → Keyboard → ℕ
unfolding scancode_to_ascii scancode_to_ascii_shift
ascii_of scancode s =
    if s.ctrl_pressed
    then (if scancode == 0x19 then 0x10 else (if scancode == 0x31 then 0x0E else 0))
    else (if ltb scancode (length scancode_to_ascii)
        then (if s.shift_pressed
            then get_or scancode_to_ascii_shift scancode 0
            else (let ascii = get_or scancode_to_ascii scancode 0 in
                if s.caps_lock && leb b'a' ascii && leb ascii b'z'
                then ascii - b'a' + b'A'
                else ascii))
        else 0)

-- A character goes into the ring, unless it is 0 or the ring is full.
unfoldable pub add_to_buffer : ℕ → Keyboard → Keyboard
add_to_buffer ascii s =
    let next_end = (s.buffer_end + 1) % keyboard_buffer_size in
    if ascii == 0 || next_end == s.buffer_start then s else record s {
      keyboard_buffer = modify s.keyboard_buffer s.buffer_end (λ _. ascii);
      buffer_end = next_end;
    }

-- `keyboard_handler`, on the scancode that is read.
unfoldable pub handler : ℕ → Keyboard → Keyboard
unfolding release
handler scancode s =
    if leb 0x80 scancode
    then release (scancode - 0x80) s
    else (if is_shift scancode
        then record s { shift_pressed = true }
        else (if is_ctrl scancode
            then record s { ctrl_pressed = true }
            else (if scancode == 0x3A
                then record s { caps_lock = not s.caps_lock }
                else add_to_buffer (ascii_of scancode s) s)))

-- `keyboard_get_char`: 0 if there is no input.
unfoldable pub get_char : Keyboard → ℕ × Keyboard
get_char s = if s.buffer_start == s.buffer_end then (0, s) else (
  get_or s.keyboard_buffer s.buffer_start 0,
  record s { buffer_start = (s.buffer_start + 1) % keyboard_buffer_size },
)

-- `keyboard_has_input`.
unfoldable pub has_input : Keyboard → Bool
has_input s = not (s.buffer_start == s.buffer_end)
