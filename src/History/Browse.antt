-- ===== src/History/Browse.antt =====
-- `get_history_command` of kernel/kernel.c over the list of the commands.
use claude_os_20day_challeng.Base.{
  ℕ, suc, ◌+◌, ◌-◌, ◌%◌, ◌<◌, ◌≤◌, ◌≡◌, refl, ap, ◌∙◌, true, false, Option, none, some, List, [],
  length, get_or, ltb, ◌==◌, if◌then◌else◌, Bool-cases, inl, inr, arith,
}
use claude_os_20day_challeng.History.{
  History, history_size, show_entry, go_back, go_forward, get_history_command,
}
use claude_os_20day_challeng.History.Log.{Holds}

-- How many entries back the position is; 0 for the line that is typed.
abbrev pub depth : ℕ → Option ℕ → ℕ
depth count none = 0
depth count (some current) = count - current

-- The position is none or one of the ten last entries.
abbrev pub InLog : ℕ → Option ℕ → Type 0
InLog count none = Unit {0}
InLog count (some current) = (current < count) × (count ≤ current + history_size)

-- The entries that can be reached.
abbrev pub reach : List (List ℕ) → ℕ
reach log = if ltb (length log) history_size then length log else history_size

-- Going back to entry `k`, counted from the newest.
abbrev pub Shows : History → List (List ℕ) → ℕ → Option (List ℕ) × History → Type 0
Shows s log k (line, s') =
    (line ≡ some (get_or log k []))
    × InLog s'.history_count s'.history_current
    × (depth s'.history_count s'.history_current ≡ suc k)
    × (s'.command_history ≡ s.command_history)
    × (s'.history_count ≡ s.history_count)

show_entry-Shows :
    (s : History) (log : List (List ℕ)) (current k : ℕ)
    → Holds s log
    → k < history_size
    → k < length log
    → current ≡ s.history_count - 1 - k
    → Shows s log k (show_entry current s)
unfolding show_entry
show_entry-Shows s log current k holds low inside is = (
  ap some (ap (λ n. s.command_history (n % 10)) is ∙ holds.entries k low inside),
  (omega (arith, holds.count), omega (arith, holds.count)),
  omega (arith, holds.count),
  refl,
  refl,
)

below : (n d : ℕ) → d < (if ltb n 10 then n else 10) → (d < 10) × (d < n)
below n d more = (ground arith, ground arith)

not_oldest :
    (count n current : ℕ)
    → count ≡ n
    → current < count
    → count - current < (if ltb n 10 then n else 10)
    → ltb (count - (if ltb count 10 then count else 10)) current ≡ true
not_oldest count n current is inside more = ground arith

oldest :
    (count n current : ℕ)
    → count ≡ n
    → current < count
    → count - current ≡ (if ltb n 10 then n else 10)
    → ltb (count - (if ltb count 10 then count else 10)) current ≡ false
oldest count n current is inside last = ground arith

not_empty : (count : ℕ) → 0 < count → (count == 0) ≡ false
not_empty count more = ground arith

go_back-Shows :
    (s : History) (log : List (List ℕ)) (at : Option ℕ)
    → Holds s log
    → InLog s.history_count at
    → depth s.history_count at < reach log
    → Shows s log (depth s.history_count at) (go_back at s)
unfolding go_back
go_back-Shows s log none holds in_log more =
    show_entry-Shows s log (s.history_count - 1) 0 holds (omega arith) (below (length log) 0 more).1
      (omega arith)
go_back-Shows s log (some current) holds in_log more =
    let inside = below (length log) (s.history_count - current) more in
    rw (not_oldest s.history_count (length log) current holds.count in_log.0 more) (
      show_entry-Shows s log (current - 1) (s.history_count - current) holds inside.0 inside.1
        (omega (arith, in_log.0)))

-- From a position that is none or one of the ten last entries, and not yet the oldest one that is
-- held, up shows the next older command, and moves there.
pub get_history_command-up :
    (s : History) (log : List (List ℕ))
    → Holds s log
    → InLog s.history_count s.history_current
    → depth s.history_count s.history_current < reach log
    → Shows s log (depth s.history_count s.history_current) (get_history_command true s)
unfolding get_history_command
get_history_command-up s log holds in_log more =
    let inside = below (length log) (depth s.history_count s.history_current) more in
    rw (not_empty s.history_count (omega (arith, holds.count, inside.1)))
      (go_back-Shows s log s.history_current holds in_log more)

go_back-oldest :
    (s : History) (log : List (List ℕ)) (at : Option ℕ)
    → Holds s log
    → InLog s.history_count at
    → depth s.history_count at ≡ reach log
    → 0 < length log
    → go_back at s ≡ (none, s)
unfolding go_back
go_back-oldest s log none holds in_log last more = absurd (ground arith)
go_back-oldest s log (some current) holds in_log last more =
    rw (oldest s.history_count (length log) current holds.count in_log.0 last) refl

-- At the oldest entry that is held, and with no entries, up shows nothing and moves nowhere.
pub get_history_command-oldest :
    (s : History) (log : List (List ℕ))
    → Holds s log
    → InLog s.history_count s.history_current
    → depth s.history_count s.history_current ≡ reach log
    → get_history_command true s ≡ (none, s)
unfolding get_history_command
get_history_command-oldest s log holds in_log last = elim (Bool-cases (s.history_count == 0)) [
  | inl empty ↦ rw empty refl
  | inr more ↦
      rw more
        (go_back-oldest s log s.history_current holds in_log last (ground (arith, holds.count)))
]

some_depth : (count k : ℕ) (at : Option ℕ) → InLog count at → depth count at ≡ suc k → 0 < count
some_depth count k none in_log deep = absurd (omega arith)
some_depth count k (some current) in_log deep = omega (arith, in_log.0)

go_forward-Shows :
    (s : History) (log : List (List ℕ)) (at : Option ℕ) (k : ℕ)
    → Holds s log
    → InLog s.history_count at
    → depth s.history_count at ≡ suc (suc k)
    → Shows s log k (go_forward at s)
unfolding go_forward
go_forward-Shows s log none k holds in_log deep = absurd (omega arith)
go_forward-Shows s log (some current) k holds in_log deep =
    let later : ltb current (s.history_count - 1) ≡ true = ground arith in
    rw later (
      show_entry-Shows s log (current + 1) k holds (omega (arith, in_log.1))
        (omega (arith, holds.count)) (omega (arith, in_log.0)))

-- Down from an older entry shows the next newer command, and moves there.
pub get_history_command-down :
    (s : History) (log : List (List ℕ)) (k : ℕ)
    → Holds s log
    → InLog s.history_count s.history_current
    → depth s.history_count s.history_current ≡ suc (suc k)
    → Shows s log k (get_history_command false s)
unfolding get_history_command
get_history_command-down s log k holds in_log deep =
    rw
      (not_empty s.history_count (some_depth s.history_count (suc k) s.history_current in_log deep))
      (go_forward-Shows s log s.history_current k holds in_log deep)
