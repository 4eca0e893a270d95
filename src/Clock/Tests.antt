-- ===== src/Clock/Tests.antt =====
-- Examples for kernel/timer.c and the uptime.
use claude_os_20day_challeng.Base.{ℕ, ◌-◌, ◌/◌, ◌^◌, ◌≡◌, refl, some, List, arith}
use claude_os_20day_challeng.MemFs.{codes}
use claude_os_20day_challeng.Clock.{Clock, timer_wait, waits, format_uptime}
use claude_os_20day_challeng.Clock.Uptime.{read_clock, read_clock-format_uptime}

abbrev at_tick : ℕ → Clock
at_tick n = record { timer_ticks = n; system_uptime_seconds = n / 100 }

-- From 100 hours on the first digit is no digit.
uptime_100_hours : format_uptime 360000 20 ≡ some (codes ":0:00:00")
unfolding format_uptime
uptime_100_hours = refl

-- A wait whose end wraps is over at once.
wait_wraps : timer_wait 0 (2 ^ 32 - 10) 20 (at_tick (2 ^ 32 - 10)) ≡ some (at_tick (2 ^ 32 - 10))
unfolding timer_wait waits
wait_wraps = refl

read_clock-format_uptime_example :
    (text : List ℕ) × (format_uptime 3725 20 ≡ some text) × (read_clock text ≡ some 3725)
read_clock-format_uptime_example = read_clock-format_uptime 3725 20 (omega arith) (omega arith)
