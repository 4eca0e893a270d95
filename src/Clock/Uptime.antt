-- ===== src/Clock/Uptime.antt =====
-- The uptime of kernel/timer.c and kernel/kernel.c, from the ticks to what is shown.
use claude_os_20day_challeng.Base.{
  ℕ, zero, suc, ◌+◌, ◌-◌, ◌*◌, ◌/◌, ◌%◌, ◌^◌, ◌<◌, ◌≤◌, ◌≡◌, refl, sym, ap, ◌∙◌, Bool, true, false,
  ◌&&◌, Option, none, some, List, [], ◌∷◌, ltb, leb, ◌==◌, if◌then◌else◌, add32, Bool-cases, inl,
  inr, arith,
}
use claude_os_20day_challeng.Clock.{
  Clock, update_uptime, timer_handler, get_uptime_seconds, waits, timer_wait, digit_char,
  format_uptime,
}

-- `n` interrupts.
abbrev pub interrupts : ℕ → Clock → Clock
interrupts zero s = s
interrupts (suc n) s = interrupts n (timer_handler s)

handler-ticks :
    (s : Clock) → s.timer_ticks + 1 < 2 ^ 32 → (timer_handler s).timer_ticks ≡ s.timer_ticks + 1
unfolding timer_handler update_uptime
handler-ticks s room = ground arith

handler-uptime :
    (s : Clock)
    → s.timer_ticks + 1 < 2 ^ 32
    → s.system_uptime_seconds ≡ s.timer_ticks / 100
    → (timer_handler s).system_uptime_seconds ≡ (s.timer_ticks + 1) / 100
unfolding timer_handler update_uptime
handler-uptime s room even = ground arith

-- The counter of seconds and `get_uptime_seconds` agree through any number of interrupts, as long as the
-- ticks do not wrap.
pub interrupts-uptime :
    (n : ℕ) (s : Clock)
    → s.timer_ticks + n < 2 ^ 32
    → s.system_uptime_seconds ≡ get_uptime_seconds s
    → ((interrupts n s).timer_ticks ≡ s.timer_ticks + n)
      × ((interrupts n s).system_uptime_seconds ≡ get_uptime_seconds (interrupts n s))
interrupts-uptime zero s room even = (omega arith, even)
interrupts-uptime (suc n) s room even =
    let ticks = handler-ticks s (omega arith) in
    let up = handler-uptime s (omega arith) even in
    let rest =
      interrupts-uptime n (timer_handler s) (omega (arith, ticks))
        (up ∙ ap (λ t. t / 100) (sym ticks)) in
    (omega (arith, rest.0, ticks), rest.1)

before_end :
    (now start_ticks ticks : ℕ)
    → start_ticks + ticks < 2 ^ 32
    → ltb now (add32 start_ticks ticks) ≡ true
    → now < start_ticks + ticks
before_end now start_ticks ticks room more = ground arith

at_end :
    (now start_ticks ticks : ℕ)
    → start_ticks + ticks < 2 ^ 32
    → ltb now (add32 start_ticks ticks) ≡ false
    → start_ticks + ticks - now ≡ 0
at_end now start_ticks ticks room done = ground arith

one_more : (now end : ℕ) → now < end → suc (end - (now + 1)) ≡ end - now
one_more now end short = omega arith

-- The wait ends after as many interrupts as were asked for, when the sum does not wrap.
pub timer_wait-interrupts :
    (ticks start_ticks : ℕ) (s : Clock)
    → start_ticks ≤ s.timer_ticks
    → s.timer_ticks ≤ start_ticks + ticks
    → start_ticks + ticks < 2 ^ 32
    → (fuel : ℕ) → start_ticks + ticks ≤ s.timer_ticks + fuel
    → timer_wait fuel start_ticks ticks s
      ≡ some (interrupts (start_ticks + ticks - s.timer_ticks) s)
unfolding timer_wait waits
timer_wait-interrupts ticks start_ticks s from to room zero enough =
    let past : ltb s.timer_ticks (add32 start_ticks ticks) ≡ false = ground arith in
    let none_left : start_ticks + ticks - s.timer_ticks ≡ 0 = omega arith in
    rw past (ap (λ n. some (interrupts n s)) (sym none_left))
timer_wait-interrupts ticks start_ticks s from to room (suc fuel) enough =
    elim (Bool-cases (ltb s.timer_ticks (add32 start_ticks ticks))) [
      | inl more ↦
          let short = before_end s.timer_ticks start_ticks ticks room more in
          let step = handler-ticks s (omega (arith, short)) in
          let rest =
            timer_wait-interrupts ticks start_ticks (timer_handler s) (omega (arith, step))
              (omega (arith, step, short)) room fuel (omega (arith, step)) in
          rw more (
            rest
            ∙ ap (λ t. some (interrupts (start_ticks + ticks - t) (timer_handler s))) step
            ∙ ap (λ n. some (interrupts n s)) (one_more s.timer_ticks (start_ticks + ticks) short))
      | inr done ↦
          let none_left = at_end s.timer_ticks start_ticks ticks room done in
          rw done (ap (λ n. some (interrupts n s)) (sym none_left))
    ]

-- A text like `01:02:03`: a clock reads it only if the six places are decimal digits, the separators
-- are colons, and the minutes and the seconds are below 60.
abbrev pub is_digit : ℕ → Bool
is_digit a = leb b'0' a && leb a b'9'

abbrev field : ℕ → ℕ → ℕ
field a b = (a - b'0') * 10 + (b - b'0')

abbrev pub read_clock : List ℕ → Option ℕ
read_clock (a ∷ b ∷ x ∷ c ∷ d ∷ y ∷ e ∷ f ∷ []) =
    if (is_digit a && is_digit b)
      && (is_digit c && is_digit d)
      && (is_digit e && is_digit f)
      && (x == b':' && y == b':')
      && (ltb (field c d) 60 && ltb (field e f) 60)
    then some (field a b * 3600 + field c d * 60 + field e f)
    else none
read_clock _ = none

tens_digit :
    (h : ℕ) → h < 100 → (if leb 10 h then digit_char (h / 10) else b'0') ≡ digit_char (h / 10)
tens_digit h low = ground arith

two_digits : (n : ℕ) → n < 100 → field (digit_char (n / 10)) (digit_char (n % 10)) ≡ n
two_digits n low = omega arith

are_digits :
    (n : ℕ) → n < 100 → (is_digit (digit_char (n / 10)) && is_digit (digit_char (n % 10))) ≡ true
are_digits n low = ground arith

-- The text of three numbers below 100, with the last two below 60.
read_clock-digits :
    (h m s : ℕ)
    → h < 100
    → m < 60
    → s < 60
    → read_clock (
        digit_char (h / 10)
        ∷ digit_char (h % 10)
        ∷ b':'
        ∷ digit_char (m / 10)
        ∷ digit_char (m % 10)
        ∷ b':'
        ∷ digit_char (s / 10)
        ∷ digit_char (s % 10)
        ∷ [])
      ≡ some (h * 3600 + m * 60 + s)
read_clock-digits h m s lh lm ls =
    let below : (ltb m 60 && ltb s 60) ≡ true = ground arith in
    rw
      (
        are_digits h lh,
        are_digits m (omega arith),
        are_digits s (omega arith),
        two_digits h lh,
        two_digits m (omega arith),
        two_digits s (omega arith),
        below,
      )
      refl

-- What `format_uptime` writes for less than 100 hours into a buffer of 20 bytes or more reads as the
-- uptime: six digits and two colons, with minutes and seconds below 60.
pub read_clock-format_uptime :
    (uptime size : ℕ)
    → uptime < 360000
    → 20 ≤ size
    → (text : List ℕ) × (format_uptime uptime size ≡ some text) × (read_clock text ≡ some uptime)
unfolding format_uptime
read_clock-format_uptime uptime size low large =
    let fits : ltb size 20 ≡ false = ground arith in
    let hours = uptime / 3600 in
    let minutes = uptime % 3600 / 60 in
    let seconds = uptime % 60 in
    let sum : hours * 3600 + minutes * 60 + seconds ≡ uptime = omega arith in
    (
      (if leb 10 hours then digit_char (hours / 10) else b'0')
          ∷ digit_char (hours % 10)
          ∷ b':'
          ∷ digit_char (minutes / 10)
          ∷ digit_char (minutes % 10)
          ∷ b':'
          ∷ digit_char (seconds / 10)
          ∷ digit_char (seconds % 10)
          ∷ [],
      rw fits refl,
      rw (tens_digit hours (omega arith)) (
          read_clock-digits hours minutes seconds (omega arith) (omega arith) (omega arith)
          ∙ ap some sum),
    )
