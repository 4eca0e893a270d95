-- ===== src/Keyboard/Tests.antt =====
-- Examples for kernel/keyboard.c.
use claude_os_20day_challeng.Base.{
  ℕ, ◌<◌, ◌≤◌, ◌≡◌, ◌≢◌, ◌⊎◌, refl, true, false, List, [], ◌∷◌, ◌++◌, replicate, arith,
}
use claude_os_20day_challeng.Keyboard.{
  Keyboard, handler, ascii_of, add_to_buffer, get_char, has_input, scancode_to_ascii,
  scancode_to_ascii_shift,
}
use claude_os_20day_challeng.Keyboard.Ring.{
  Queued, add_to_buffer-Queued, get_char-Queued, handler-Queued,
}

-- The ring is about to go around its end.
abbrev idle : Keyboard
idle = record {
  shift_pressed = false;
  caps_lock = false;
  ctrl_pressed = false;
  keyboard_buffer = replicate 256 0;
  buffer_start = 255;
  buffer_end = 255;
}

idle-Queued : Queued idle []
idle-Queued = record {
  sized = refl;
  start_lt = omega arith;
  not_full = omega arith;
  at_end = refl;
  holds = tt;
}

one_waits-Queued : Queued (add_to_buffer 97 idle) (97 ∷ [])
one_waits-Queued = (add_to_buffer-Queued 97 idle [] idle-Queued (λ e. omega arith)).0 (omega arith)

abbrev one_waits : List ℕ
one_waits = 97 ∷ []

get_char-Queued_example :
    let s = add_to_buffer 97 idle in
    ((one_waits ≡ []) → (get_char s ≡ (0, s)) × (has_input s ≡ false))
    × ((c : ℕ) (rest : List ℕ)
        → one_waits ≡ c ∷ rest
        → ((get_char s).0 ≡ c) × Queued (get_char s).1 rest × (has_input s ≡ true))
get_char-Queued_example = get_char-Queued (add_to_buffer 97 idle) one_waits one_waits-Queued

handler-Queued_example :
    ((ascii_of 0x1E idle ≢ 0)
      → (0 < 255)
      → Queued (handler 0x1E idle) ([] ++ ascii_of 0x1E idle ∷ []))
    × ((ascii_of 0x1E idle ≡ 0) ⊎ (255 ≤ 0) → Queued (handler 0x1E idle) [])
handler-Queued_example = handler-Queued 0x1E idle [] idle-Queued

-- Shift and `a`, and the character that is read.
shifted : (get_char (handler 0x1E (handler 0x2A idle))).0 ≡ b'A'
unfolding handler ascii_of add_to_buffer get_char scancode_to_ascii scancode_to_ascii_shift
shifted = refl
