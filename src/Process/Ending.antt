-- ===== src/Process/Ending.antt =====
-- The end of processes: `process_kill`, `process_exit` and `process_cleanup_terminated` of
-- kernel/process.c.
use claude_os_20day_challeng.Base.{
  ℕ, zero, suc, ◌<◌, ◌≡◌, ◌≢◌, ◌⊎◌, inl, inr, refl, ap, false, none, some, Option-cases, Bool-cases,
  List, [], ◌∷◌, ◌==◌, get_elem?, get_elem?-modify_self, get_elem?-modify_ne, get_or,
  get_or-of_get_elem?, map, minus_one, arith,
}
use claude_os_20day_challeng.Process.Table.{
  Process, terminated, state_code, state_code-injective, max_processes, invalid_pid, kernel_pid,
  is_free, in_state, empty_slot,
}
use claude_os_20day_challeng.Process.{
  Procs, find, kill, stop, stop_slot, exit, cleanup_terminated, reap,
}
use claude_os_20day_challeng.Process.Invariant.{Inv, same_pid-Inv, current_pid_or-eq}
use claude_os_20day_challeng.Process.Lifecycle.{find_complete, find_sound}

stop_slot-Inv :
    (code i : ℕ) (s : Procs)
    → Inv s.process_table s.next_pid
    → Inv (stop_slot code i s).0.process_table (stop_slot code i s).0.next_pid
unfolding stop_slot stop
stop_slot-Inv code i s v = same_pid-Inv s.process_table s.next_pid i (stop code) v (λ p. refl)

-- A process with a pid from 1 to 7 that has not ended: `process_kill` ends it with exit code -1 and
-- without a stack, and touches no other slot.
pub kill-ends :
    (s : Procs) (i : ℕ) (p : Process)
    → Inv s.process_table s.next_pid
    → get_elem? s.process_table i ≡ some p
    → p.pid ≢ kernel_pid
    → p.pid < max_processes
    → p.state ≢ terminated
    → let s' = (kill p.pid s).0 in
      (get_elem? s'.process_table i
        ≡ some (record p { state = terminated; exit_code = minus_one; stack = 0 }))
      × ((j : ℕ) → i ≢ j → get_elem? s'.process_table j ≡ get_elem? s.process_table j)
      × Inv s'.process_table s'.next_pid
unfolding kill stop_slot stop
kill-ends s i p v at user small alive =
    let found = find_complete s.process_table s.next_pid i p v at small in
    let here = get_or-of_get_elem? s.process_table i p empty_slot at in
    let open_state : in_state terminated p ≡ false = elim (Bool-cases (in_state terminated p)) [
      | inl e ↦ absurd (alive (state_code-injective p.state terminated (ground arith)))
      | inr e ↦ e
    ] in
    let other : (p.pid == kernel_pid) ≡ false = ground arith in
    rw (found, kill, here, other, open_state)
      (
        get_elem?-modify_self s.process_table i (stop minus_one) p at,
        (λ j ne. get_elem?-modify_ne s.process_table i j (stop minus_one) ne),
        stop_slot-Inv minus_one i s v,
      )

-- Whenever `process_kill` changes anything, the pid is that of a process with a pid from 1 to 7 that
-- had not ended: the kernel's process is never killed, and none is killed twice.
pub kill-guards :
    (s : Procs) (pid : ℕ)
    → (kill pid s ≡ (s, none))
      ⊎ ((i : ℕ) × (p : Process) × (get_elem? s.process_table i ≡ some p)
          × (p.pid ≡ pid)
          × (pid ≢ kernel_pid)
          × (pid < max_processes)
          × (p.state ≢ terminated))
unfolding kill
kill-guards s pid = elim (Option-cases (find s.process_table pid)) [
  | inl e ↦ inl (rw (e, kill))
  | inr (i, e) ↦
      let (p, at, is, small) = find_sound s.process_table pid i e in
      let here = get_or-of_get_elem? s.process_table i p empty_slot at in
      elim (Bool-cases (p.pid == kernel_pid)) [
        | inl k ↦ inl (rw (e, kill, here, k))
        | inr user ↦ elim (Bool-cases (in_state terminated p)) [
          | inl dead ↦ inl (rw (e, kill, here, user, dead))
          | inr alive ↦
              inr (
                i,
                p,
                at,
                is,
                ground arith,
                small,
                (λ h. let code = ap state_code h in ground arith),
              )
        ]
      ]
]

-- `process_exit` ends the running process with its code, unless it is the kernel's or none runs, and
-- touches no other slot.
pub exit-ends :
    (code : ℕ) (s : Procs) (i : ℕ) (p : Process)
    → Inv s.process_table s.next_pid
    → s.current_process ≡ some i
    → get_elem? s.process_table i ≡ some p
    → let s' = (exit code s).0 in
      ((p.pid ≡ kernel_pid) → s' ≡ s)
      × ((p.pid ≢ kernel_pid)
          → (get_elem? s'.process_table i
              ≡ some (record p { state = terminated; exit_code = code; stack = 0 })))
      × ((j : ℕ) → i ≢ j → get_elem? s'.process_table j ≡ get_elem? s.process_table j)
      × Inv s'.process_table s'.next_pid
unfolding exit stop_slot stop
exit-ends code s i p v runs at =
    let pid = current_pid_or-eq kernel_pid s.process_table s.current_process i p runs at in
    elim (Bool-cases (p.pid == kernel_pid)) [
      | inl k ↦
          let done : exit code s ≡ (s, none) = ground (arith, runs, pid, k) in
          rw done ((λ h. refl), (λ h. absurd (h (ground arith))), (λ j ne. refl), v)
      | inr user ↦
          let done : exit code s ≡ stop_slot code i s = ground (arith, runs, pid, user) in
          rw done (
            (λ h. absurd (ground arith)),
            (λ h. get_elem?-modify_self s.process_table i (stop code) p at),
            (λ j ne. get_elem?-modify_ne s.process_table i j (stop code) ne),
            stop_slot-Inv code i s v,
          )
    ]

get_elem?-map-reap :
    (ps : List Process) (i : ℕ) (p : Process)
    → get_elem? ps i ≡ some p
    → get_elem? (map reap ps) i ≡ some (reap p)
get_elem?-map-reap [] i p h = cc
get_elem?-map-reap (q ∷ ps) zero p h = cc
get_elem?-map-reap (q ∷ ps) (suc i) p h = get_elem?-map-reap ps i p h

-- `process_cleanup_terminated` frees the slot of every ended process but the kernel's, and leaves
-- every other slot as it was.
pub cleanup-frees :
    (s : Procs) (i : ℕ) (p : Process)
    → get_elem? s.process_table i ≡ some p
    → let slot = get_elem? (cleanup_terminated s).process_table i in
      ((p.state ≡ terminated) → (p.pid ≢ kernel_pid) → slot ≡ some (record p { pid = invalid_pid }))
      × ((p.state ≢ terminated) → slot ≡ some p)
      × ((p.pid ≡ kernel_pid) → slot ≡ some p)
unfolding cleanup_terminated reap
cleanup-frees s i p at =
    let after = get_elem?-map-reap s.process_table i p at in
    (
      (λ dead user. elim (Bool-cases (is_free p)) [
        | inl free ↦
            let none_left : p.pid ≡ invalid_pid = ground arith in
            ground (arith, after, dead, none_left)
        | inr used ↦ ground (arith, after, used)
      ]),
      (λ alive. elim (Bool-cases (in_state terminated p)) [
        | inl e ↦ absurd (alive (state_code-injective p.state terminated (ground arith)))
        | inr e ↦ ground (arith, after, e)
      ]),
      (λ k. ground (arith, after)),
    )

-- `process_kill` changes nothing, or ends the process of one slot.
pub kill-shape :
    (s : Procs) (pid : ℕ)
    → (kill pid s ≡ (s, none)) ⊎ ((i : ℕ) × ((kill pid s).0 ≡ (stop_slot minus_one i s).0))
unfolding kill
kill-shape s pid = elim (Option-cases (find s.process_table pid)) [
  | inl e ↦ inl (rw (e, kill))
  | inr (i, e) ↦ elim (Bool-cases ((get_or s.process_table i empty_slot).pid == kernel_pid)) [
    | inl k ↦ inl (rw (e, kill, k))
    | inr user ↦ elim (Bool-cases (in_state terminated (get_or s.process_table i empty_slot))) [
      | inl dead ↦ inl (rw (e, kill, user, dead))
      | inr alive ↦ inr (i, rw (e, kill, user, alive))
    ]
  ]
]
