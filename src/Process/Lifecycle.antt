-- ===== src/Process/Lifecycle.antt =====
-- Creation, search, termination and clean-up of processes, of kernel/process.c.
use claude_os_20day_challeng.Base.{
  ℕ, ◌+◌, ◌<◌, ◌≤◌, ◌≡◌, ◌≢◌, ◌⊎◌, inl, inr, refl, ◌||◌, none, some, Option-cases, Bool-cases, List,
  leb, get_elem?, get_elem?-modify_self, get_elem?-modify_ne, modify, find_index, find_index-some,
  find_index-total, is_negative, add32, arith,
}
use claude_os_20day_challeng.Process.Table.{
  Process, State, max_processes, invalid_pid, has_pid, overruns,
}
use claude_os_20day_challeng.Process.{
  Procs, free_slot, fill, create_simple, find, current_pid_or, create, enqueue,
}
use claude_os_20day_challeng.Process.Links.{Queue, push_by_tail, set_next}
use claude_os_20day_challeng.Process.Invariant.{
  Inv, fill-Inv, same_pid-Inv, free_slot-some, free_slot-none,
}

-- What `process_create_simple` has done when it returns a new pid: it filled one free slot, not the
-- kernel's, with a READY process at the entry point, and nothing else.
pub record Created (entry : ℕ) (name : List ℕ) (s : Procs) (r : ℕ × Procs) : Type 0 where
  pub slot : ℕ
  pub not_kernel : 0 < slot
  pub old : Process
  pub was_free : (get_elem? s.process_table slot ≡ some old) × (old.pid ≡ invalid_pid)
  pub new : Process
  pub filled : get_elem? r.1.process_table slot ≡ some new
  pub fields :
      (new.pid ≡ r.0)
      × (new.eip ≡ entry)
      × (new.name ≡ name)
      × (new.state ≡ State.ready)
      × (new.parent_pid ≡ current_pid_or invalid_pid s.process_table s.current_process)
  pub others : (j : ℕ) → slot ≢ j → get_elem? r.1.process_table j ≡ get_elem? s.process_table j

-- With room for one more pid, `process_create_simple` either finds every slot but the kernel's in use,
-- returns -1 and changes nothing, or gives the next pid to a process in a free slot; and the pids
-- in use stay distinct.
pub create_simple-Created :
    (now entry : ℕ) (name : List ℕ) (s : Procs) (r : ℕ × Procs)
    → Inv s.process_table s.next_pid
    → s.next_pid + 1 < invalid_pid
    → create_simple now entry name s ≡ some r
    → Inv r.1.process_table r.1.next_pid
      × (((r ≡ (invalid_pid, s))
            × ((i : ℕ) (p : Process)
                → 0 < i
                → get_elem? s.process_table i ≡ some p
                → p.pid ≢ invalid_pid))
          ⊎ ((r.0 ≡ s.next_pid) × Created entry name s r))
unfolding create_simple fill
create_simple-Created now entry name s r v room h =
    elim (Option-cases (free_slot s.process_table)) [
      | inl full ↦
          let same : (invalid_pid, s) ≡ r = ground (arith, full) in
          rw (← same) (v, inl (refl, λ i p pos at. free_slot-none s.process_table i p full pos at))
      | inr (slot, e) ↦ elim (Bool-cases (overruns name)) [
        | inl long ↦ ground (arith, e, long)
        | inr fits ↦
            let (old, at, free, pos) = free_slot-some s.process_table slot e in
            let put =
              fill s.next_pid (current_pid_or invalid_pid s.process_table s.current_process) entry
                name now in
            let s' : Procs = record s {
              process_table = modify s.process_table slot put;
              next_pid = add32 s.next_pid 1;
            } in
            let same : (s.next_pid, s') ≡ r = ground (arith, e, fits) in
            let count : add32 s.next_pid 1 ≡ s.next_pid + 1 = omega arith in
            rw (← same, count)
              (
                fill-Inv s.process_table s.next_pid slot put v (λ p. refl),
                inr (
                  refl,
                  record {
                    slot = slot;
                    not_kernel = pos;
                    old = old;
                    was_free = (at, free);
                    new = put old;
                    filled = get_elem?-modify_self s.process_table slot put old at;
                    fields = (refl, refl, refl, refl, refl);
                    others = λ j ne. get_elem?-modify_ne s.process_table slot j put ne;
                  },
                ),
              )
      ]
    ]

-- A used slot is found by its pid, if the pid is below 8.
pub find_complete :
    (table : List Process) (next_pid i : ℕ) (p : Process)
    → Inv table next_pid
    → get_elem? table i ≡ some p
    → p.pid < max_processes
    → find table p.pid ≡ some i
unfolding find
find_complete table next_pid i p v at small =
    let (j, e, le) = find_index-total (has_pid p.pid) table i p at (ground arith) in
    let (q, at', is) = find_index-some (has_pid p.pid) table j e in
    let same = v.unique i j p q at at' (λ h. omega arith) (ground arith) in ground (arith, e, same)

-- What is found has the pid.
pub find_sound :
    (table : List Process) (pid i : ℕ)
    → find table pid ≡ some i
    → (p : Process) × (get_elem? table i ≡ some p) × (p.pid ≡ pid) × (pid < max_processes)
unfolding find
find_sound table pid i h = elim (Bool-cases (is_negative pid || leb max_processes pid)) [
  | inl out ↦ ground (arith, out)
  | inr fine ↦
      let e : find_index (has_pid pid) table ≡ some i = ground (arith, fine) in
      let (p, at, is) = find_index-some (has_pid pid) table i e in
      (p, at, ground arith, ground (arith, fine))
]

-- The search refuses every pid from 8 on, while the pids that are given out go on growing.
pub find-large : (table : List Process) (pid : ℕ) → max_processes ≤ pid → find table pid ≡ none
unfolding find
find-large table pid h = ground arith

push_by_tail-Inv :
    (table : List Process) (q : Queue) (i next_pid : ℕ)
    → Inv table next_pid
    → Inv (push_by_tail table q i).0 next_pid
unfolding push_by_tail set_next
push_by_tail-Inv table q i next_pid v =
    let cut = same_pid-Inv table next_pid i (set_next none) v (λ p. refl) in
    elim (Option-cases q.tail) [
      | inl e ↦ rw (e, push_by_tail) cut
      | inr (t, e) ↦
          rw (e, push_by_tail)
            (same_pid-Inv (modify table i (set_next none)) next_pid t (set_next (some i)) cut
              (λ p. refl))
    ]

-- `process_create` keeps the pids distinct too.
pub create-Inv :
    (now entry : ℕ) (name : List ℕ) (s : Procs) (r : ℕ × Procs)
    → Inv s.process_table s.next_pid
    → s.next_pid + 1 < invalid_pid
    → create now entry name s ≡ some r
    → Inv r.1.process_table r.1.next_pid
unfolding create enqueue fill
create-Inv now entry name s r v room h = elim (Option-cases (free_slot s.process_table)) [
  | inl full ↦ let same : (invalid_pid, s) ≡ r = ground (arith, full) in rw (← same) v
  | inr (slot, e) ↦ elim (Bool-cases (overruns name)) [
    | inl long ↦ ground (arith, e, long)
    | inr fits ↦
        let put =
          fill s.next_pid (current_pid_or invalid_pid s.process_table s.current_process) entry name
            now in
        let s1 : Procs = record s {
          process_table = modify s.process_table slot put;
          next_pid = add32 s.next_pid 1;
        } in
        let same : (s.next_pid, enqueue slot s1) ≡ r = ground (arith, e, fits) in
        let count : add32 s.next_pid 1 ≡ s.next_pid + 1 = omega arith in
        rw (← same, count)
          (push_by_tail-Inv s1.process_table s.ready_queue slot (s.next_pid + 1)
            (fill-Inv s.process_table s.next_pid slot put v (λ p. refl)))
  ]
]
