-- ===== src/Ipc/Dispatch.antt =====
-- `ipc_semaphore_wait` of kernel/ipc.c, followed by `process_switch` of kernel/process.c.
use claude_os_20day_challeng.Base.{
  ℕ, ◌≡◌, ◌≢◌, ◌∙◌, sym, some, List, [], ◌∷◌, ◌++◌, get_elem?, arith,
}
use claude_os_20day_challeng.Process.{switch}
use claude_os_20day_challeng.Process.Table.{Process, blocked, kernel_pid}
use claude_os_20day_challeng.Process.Links.Chain.{NotIn, last?}
use claude_os_20day_challeng.Process.Schedule.{Waits, switch-Waits, switch-empty}
use claude_os_20day_challeng.Ipc.{Ipc, semaphore_wait}
use claude_os_20day_challeng.Ipc.Effects.{blocking-States, blocking-other}
use claude_os_20day_challeng.Ipc.Semaphores.{Sem, blocked_at, wait_blocked}

-- The process that runs, and the ready queue, after `process_switch` has left the process `c`.
abbrev pub runs_next : ℕ → List ℕ → ℕ
runs_next c [] = c
runs_next c (x ∷ ys) = x

abbrev pub go_round : ℕ → List ℕ → List ℕ
go_round c [] = []
go_round c (x ∷ ys) = ys ++ c ∷ []

-- The running process `c` is a user process that is not in the ready queue `xs`, waits for a semaphore
-- of value 0, for which the processes `zs` wait, and the last of these, if there is one, is not in
-- `xs` either. Then `ipc_semaphore_wait` marks `c` BLOCKED. The next `process_switch` treats it as a process
-- that is ready all the same: with an empty ready queue `c` goes on running, and otherwise the first
-- of the queue runs and `c` stands at the end of the ready queue.
pub switch-semaphore_wait :
    (s : Ipc) (i id c : ℕ) (zs xs : List ℕ) (p : Process)
    → Sem s i id 0 zs
    → Waits s.procs xs
    → s.procs.current_process ≡ some c
    → get_elem? s.procs.process_table c ≡ some p
    → p.pid ≢ kernel_pid
    → NotIn c xs
    → ((t : ℕ) → last? zs ≡ some t → NotIn t xs)
    → let s' = (semaphore_wait id s).1.procs in
      ((q : Process) × (get_elem? s'.process_table c ≡ some q) × (q.state ≡ blocked))
      × ((switch s').0.current_process ≡ some (runs_next c xs))
      × Waits (switch s').0 (go_round c xs)
unfolding blocked_at
switch-semaphore_wait s i id c zs [] p h w runs at user out apart =
    let s' = (blocked_at c i h.slot.waiting s).procs in
    let (q, at', pid, st) = blocking-States s.procs.process_table h.slot.waiting c c p at in
    let ready_list =
      blocking-other s.procs.process_table h.slot.waiting s.procs.ready_queue c [] out
        (λ t e. apart t (sym h.queue.at_end ∙ e)) w in
    rw (wait_blocked s i id c zs h runs, switch-empty s' ready_list)
      ((q, at', ground (arith, st)), runs, ready_list)
switch-semaphore_wait s i id c zs (x ∷ ys) p h w runs at user out apart =
    let s' = (blocked_at c i h.slot.waiting s).procs in
    let (q, at', pid, st) = blocking-States s.procs.process_table h.slot.waiting c c p at in
    let ready_list =
      blocking-other s.procs.process_table h.slot.waiting s.procs.ready_queue c (x ∷ ys) out
        (λ t e. apart t (sym h.queue.at_end ∙ e)) w in
    let round = switch-Waits s' x ys ready_list c q runs at' (λ e. user (sym pid ∙ e)) out.1 in
    rw (wait_blocked s i id c zs h runs) ((q, at', ground (arith, st)), round.0, round.2)
