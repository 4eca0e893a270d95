-- ===== src/Clock.antt =====
-- The ticks of kernel/timer.c and the uptime of kernel/kernel.c. The ports of the timer are left out.
mod Uptime
mod Tests
use claude_os_20day_challeng.Base.{
  ℕ, zero, suc, ◌+◌, ◌-◌, ◌*◌, ◌/◌, ◌%◌, ◌^◌, Bool, true, false, Option, none, some, List, [], ◌∷◌,
  ltb, leb, ◌==◌, if◌then◌else◌, add32,
}

-- TIMER_FREQUENCY.
abbrev pub timer_frequency : ℕ
timer_frequency = 100

pub record Clock : Type 0 where
  pub timer_ticks : ℕ
  pub system_uptime_seconds : ℕ

unfoldable pub update_uptime : Clock → Clock
update_uptime s = record s { system_uptime_seconds = add32 s.system_uptime_seconds 1 }

unfoldable pub timer_handler : Clock → Clock
unfolding update_uptime
timer_handler s =
    let t = record s { timer_ticks = add32 s.timer_ticks 1 } in
    if t.timer_ticks % 100 == 0 then update_uptime t else t

abbrev pub get_uptime_seconds : Clock → ℕ
get_uptime_seconds s = s.timer_ticks / timer_frequency

-- The condition on which `timer_wait` goes on, after it was called at `start_ticks`.
unfoldable pub waits : ℕ → ℕ → Clock → Bool
waits start_ticks ticks s = ltb s.timer_ticks (add32 start_ticks ticks)

-- `timer_wait` over the interrupts that come, at most `fuel` of them; none when it waits on.
unfoldable pub timer_wait : ℕ → ℕ → ℕ → Clock → Option Clock
unfolding waits
timer_wait zero start_ticks ticks s = if waits start_ticks ticks s then none else some s
timer_wait (suc fuel) start_ticks ticks s =
    let later = timer_wait fuel start_ticks ticks (timer_handler s) in
    if waits start_ticks ticks s then later else some s

-- A digit as a `char`.
abbrev pub digit_char : ℕ → ℕ
digit_char d = (b'0' + d) % 256

-- `format_uptime`: the bytes before the NUL; none when the buffer is too small.
unfoldable pub format_uptime : ℕ → ℕ → Option (List ℕ)
format_uptime uptime_seconds size =
    let hours = uptime_seconds / 3600 in
    let minutes = uptime_seconds % 3600 / 60 in
    let seconds = uptime_seconds % 60 in
    if ltb size 20
    then none
    else some (
        (if leb 10 hours then digit_char (hours / 10) else b'0')
        ∷ digit_char (hours % 10)
        ∷ b':'
        ∷ digit_char (minutes / 10)
        ∷ digit_char (minutes % 10)
        ∷ b':'
        ∷ digit_char (seconds / 10)
        ∷ digit_char (seconds % 10)
        ∷ [])
