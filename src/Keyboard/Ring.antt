-- ===== src/Keyboard/Ring.antt =====
-- The ring buffer of kernel/keyboard.c as a queue of characters.
use claude_os_20day_challeng.Base.{
  Bool, Bool-cases, ◌⊎◌, inl, inr, not, leb, sym, ◌-◌, ℕ, suc, ◌+◌, ◌%◌, ◌<◌, ◌≤◌, ◌≡◌, ◌≢◌, refl,
  ap, subst, ◌∙◌, true, false, ◌||◌, List, [], ◌∷◌, ◌++◌, get_or, modify, length, ◌==◌, arith,
  get_or-modify_self, get_or-modify_ne, length-modify, length-append,
}
use claude_os_20day_challeng.Keyboard.{
  release, is_shift, is_ctrl, handler, ascii_of, Keyboard, keyboard_buffer_size, add_to_buffer,
  get_char, has_input,
}

-- The characters of `queue` lie in the buffer from index `start` on, around its end.
abbrev pub Holds : List ℕ → ℕ → List ℕ → Type 0
Holds buffer start [] = Unit {0}
Holds buffer start (c ∷ queue) =
    (get_or buffer start 0 ≡ c) × Holds buffer ((start + 1) % keyboard_buffer_size) queue

-- The ring of a keyboard holds the characters that wait, the oldest first.
pub record Queued (s : Keyboard) (queue : List ℕ) : Type 0 where
  pub sized : length s.keyboard_buffer ≡ keyboard_buffer_size
  pub start_lt : s.buffer_start < keyboard_buffer_size
  pub not_full : length queue < keyboard_buffer_size
  pub at_end : s.buffer_end ≡ (s.buffer_start + length queue) % keyboard_buffer_size
  pub holds : Holds s.keyboard_buffer s.buffer_start queue

-- Writing a slot that the queue does not reach.
Holds-modify :
    (buffer : List ℕ) (start i c : ℕ) (queue : List ℕ)
    → start < keyboard_buffer_size
    → length queue < keyboard_buffer_size
    → i ≡ (start + length queue) % keyboard_buffer_size
    → i < length buffer
    → Holds buffer start queue
    → Holds (modify buffer i (λ _. c)) start (queue ++ c ∷ [])
Holds-modify buffer start i c [] lt small is in_buffer h =
    let same : i ≡ start = omega arith in
    (
      subst (λ k. get_or (modify buffer i (λ _. c)) k 0 ≡ c) same
          (get_or-modify_self buffer i (λ _. c) 0 in_buffer),
      tt,
    )
Holds-modify buffer start i c (d ∷ queue) lt small is in_buffer h =
    let apart : i ≢ start = omega arith in
    let start' = (start + 1) % keyboard_buffer_size in
    (
      get_or-modify_ne buffer i start (λ _. c) 0 apart ∙ h.0,
      Holds-modify buffer start' i c queue (omega arith) (omega arith) (omega arith) in_buffer h.1,
    )

-- A character other than 0 goes to the end of the queue if fewer than 255 characters wait, and is
-- dropped otherwise.
pub add_to_buffer-Queued :
    (c : ℕ) (s : Keyboard) (queue : List ℕ)
    → Queued s queue
    → c ≢ 0
    → ((length queue < 255) → Queued (add_to_buffer c s) (queue ++ c ∷ []))
      × ((255 ≤ length queue) → add_to_buffer c s ≡ s)
unfolding add_to_buffer
add_to_buffer-Queued c s queue q real =
    let next_end = (s.buffer_end + 1) % keyboard_buffer_size in
    (
      (λ room.
          let apart : next_end ≢ s.buffer_start = omega (arith, q.at_end, q.start_lt) in
          let goes : (c == 0 || next_end == s.buffer_start) ≡ false = ground arith in
          let more = length-append queue (c ∷ []) in
          let in_buffer : s.buffer_end < length s.keyboard_buffer =
            omega (arith, q.at_end, q.sized) in
          rw goes (record {
            sized = length-modify s.keyboard_buffer s.buffer_end _ ∙ q.sized;
            start_lt = q.start_lt;
            not_full = omega (arith, more);
            at_end = omega (arith, more, q.at_end);
            holds =
                Holds-modify s.keyboard_buffer s.buffer_start s.buffer_end c queue q.start_lt
                  q.not_full q.at_end in_buffer q.holds;
          })),
      (λ full.
          let meets : next_end ≡ s.buffer_start = omega (arith, q.at_end, q.start_lt, q.not_full) in
          let stays : (c == 0 || next_end == s.buffer_start) ≡ true = ground arith in
          rw stays refl),
    )

-- Reading takes the oldest character that waits, or gives 0 and changes nothing if none does, and input
-- is available exactly if some character waits.
pub get_char-Queued :
    (s : Keyboard) (queue : List ℕ)
    → Queued s queue
    → ((queue ≡ []) → (get_char s ≡ (0, s)) × (has_input s ≡ false))
      × ((c : ℕ) (rest : List ℕ)
          → queue ≡ c ∷ rest
          → ((get_char s).0 ≡ c) × Queued (get_char s).1 rest × (has_input s ≡ true))
unfolding get_char has_input
get_char-Queued s queue q = (
  (λ e.
      let len : length queue ≡ 0 = ap length e in
      let meets : s.buffer_start ≡ s.buffer_end = omega (arith, q.at_end, q.start_lt) in
      let empty : (s.buffer_start == s.buffer_end) ≡ true = ground arith in
      (rw (empty, get_char) refl, rw empty refl)),
  (λ c rest e.
      let len : length queue ≡ suc (length rest) = ap length e in
      let apart : s.buffer_start ≢ s.buffer_end = omega (arith, q.at_end, q.start_lt, q.not_full) in
      let waits : (s.buffer_start == s.buffer_end) ≡ false = ground arith in
      let held = subst (Holds s.keyboard_buffer s.buffer_start) e q.holds in
      rw waits (
        held.0,
        record {
          sized = q.sized;
          start_lt = omega arith;
          not_full = omega (arith, q.not_full);
          at_end = omega (arith, q.at_end, q.start_lt);
          holds = held.1;
        },
        refl,
      )),
)

-- The keys that are held down do not matter to the ring.
Queued-modifiers :
    (shift caps ctrl : Bool) (s : Keyboard) (queue : List ℕ)
    → Queued s queue
    → Queued (record s { shift_pressed = shift; caps_lock = caps; ctrl_pressed = ctrl }) queue
Queued-modifiers shift caps ctrl s queue q = record {
  sized = q.sized;
  start_lt = q.start_lt;
  not_full = q.not_full;
  at_end = q.at_end;
  holds = q.holds;
}

Queued-release :
    (scancode : ℕ) (s : Keyboard) (queue : List ℕ)
    → Queued s queue
    → Queued (release scancode s) queue
unfolding release
Queued-release scancode s queue q = elim (Bool-cases (is_shift scancode)) [
  | inl t ↦ rw t (Queued-modifiers false s.caps_lock s.ctrl_pressed s queue q)
  | inr f ↦ elim (Bool-cases (is_ctrl scancode)) [
    | inl t ↦ rw (f, t) (Queued-modifiers s.shift_pressed s.caps_lock false s queue q)
    | inr g ↦ rw (f, g) q
  ]
]

add_nothing : (c : ℕ) (s : Keyboard) → (c == 0) ≡ true → add_to_buffer c s ≡ s
unfolding add_to_buffer
add_nothing c s nothing = rw nothing refl

-- A key that goes into the ring by its character `c`, or not at all if `c` is 0.
add_to_buffer-key :
    (c : ℕ) (s : Keyboard) (queue : List ℕ)
    → Queued s queue
    → ((c ≢ 0) → (length queue < 255) → Queued (add_to_buffer c s) (queue ++ c ∷ []))
      × ((c ≡ 0) ⊎ (255 ≤ length queue) → Queued (add_to_buffer c s) queue)
add_to_buffer-key c s queue q = (
  (λ real. (add_to_buffer-Queued c s queue q real).0),
  (λ stays. elim (Bool-cases (c == 0)) [
    | inl nothing ↦ subst (λ t. Queued t queue) (sym (add_nothing c s nothing)) q
    | inr something ↦
        let real : c ≢ 0 = ground arith in
        let full : 255 ≤ length queue = ground arith in
        subst (λ t. Queued t queue) (sym ((add_to_buffer-Queued c s queue q real).1 full)) q
  ]),
)

-- A scancode without a character adds nothing.
silent-key :
    (c : ℕ) (t : Keyboard) (queue : List ℕ)
    → c ≡ 0
    → Queued t queue
    → ((c ≢ 0) → (length queue < 255) → Queued t (queue ++ c ∷ []))
      × ((c ≡ 0) ⊎ (255 ≤ length queue) → Queued t queue)
silent-key c t queue silent q = ((λ real. absurd (real silent)), (λ _. q))

release_silent : (scancode : ℕ) (s : Keyboard) → leb 0x80 scancode ≡ true → ascii_of scancode s ≡ 0
unfolding ascii_of
release_silent scancode s t = ground arith

modifiers_silent :
    (s : Keyboard) → (ascii_of 0x2A s ≡ 0) × (ascii_of 0x36 s ≡ 0) × (ascii_of 0x1D s ≡ 0)
unfolding ascii_of
modifiers_silent s = (ground arith, ground arith, ground arith)

one_of_two : (a b : Bool) → (a || b) ≡ true → (a ≡ true) ⊎ (b ≡ true)
one_of_two true b t = inl refl
one_of_two false b t = inr t

shift_silent : (scancode : ℕ) (s : Keyboard) → is_shift scancode ≡ true → ascii_of scancode s ≡ 0
shift_silent scancode s t = elim (one_of_two (scancode == 0x2A) (scancode == 0x36) t) [
  | inl e ↦ let same : scancode ≡ 0x2A = ground arith in rw same (modifiers_silent s).0
  | inr e ↦ let same : scancode ≡ 0x36 = ground arith in rw same (modifiers_silent s).1
]

ctrl_silent : (scancode : ℕ) (s : Keyboard) → is_ctrl scancode ≡ true → ascii_of scancode s ≡ 0
ctrl_silent scancode s t =
    let same : scancode ≡ 0x1D = ground arith in rw same (modifiers_silent s).2

caps_silent : (scancode : ℕ) (s : Keyboard) → (scancode == 0x3A) ≡ true → ascii_of scancode s ≡ 0
unfolding ascii_of
caps_silent scancode s t = ground arith

-- Whatever scancode the interrupt handler reads, the ring holds a queue again: if the key has a
-- character (`ascii_of` is not 0) and fewer than 255 characters wait, the same with the character at
-- its end, and otherwise the same as before.
pub handler-Queued :
    (scancode : ℕ) (s : Keyboard) (queue : List ℕ)
    → Queued s queue
    → ((ascii_of scancode s ≢ 0)
        → (length queue < 255)
        → Queued (handler scancode s) (queue ++ ascii_of scancode s ∷ []))
      × ((ascii_of scancode s ≡ 0) ⊎ (255 ≤ length queue) → Queued (handler scancode s) queue)
unfolding handler
handler-Queued scancode s queue q =
    let c = ascii_of scancode s in
    elim (Bool-cases (leb 0x80 scancode)) [
      | inl t ↦ rw t (
          silent-key c (release (scancode - 0x80) s) queue (release_silent scancode s t)
            (Queued-release (scancode - 0x80) s queue q))
      | inr a ↦ elim (Bool-cases (is_shift scancode)) [
        | inl t ↦
            rw (a, t)
              (silent-key c _ queue (shift_silent scancode s t)
                (Queued-modifiers true s.caps_lock s.ctrl_pressed s queue q))
        | inr b ↦ elim (Bool-cases (is_ctrl scancode)) [
          | inl t ↦
              rw (a, b, t)
                (silent-key c _ queue (ctrl_silent scancode s t)
                  (Queued-modifiers s.shift_pressed s.caps_lock true s queue q))
          | inr d ↦ elim (Bool-cases (scancode == 0x3A)) [
            | inl t ↦
                rw (a, b, d, t)
                  (silent-key c _ queue (caps_silent scancode s t)
                    (Queued-modifiers s.shift_pressed (not s.caps_lock) s.ctrl_pressed s queue q))
            | inr e ↦ rw (a, b, d, e) (add_to_buffer-key c s queue q)
          ]
        ]
      ]
    ]
