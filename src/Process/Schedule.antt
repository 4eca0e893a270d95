-- ===== src/Process/Schedule.antt =====
-- The ready queue of kernel/process.c: `process_create` appends to it, and `process_switch` goes round
-- it.
use claude_os_20day_challeng.Base.{
  ℕ, ◌<◌, ◌≡◌, ◌≢◌, inl, inr, refl, false, none, some, List, [], ◌∷◌, ◌++◌, length, length-modify,
  get_elem?, get_elem?-lt, modify, minus_one, add32, arith,
}
use claude_os_20day_challeng.Process.Table.{
  Process, terminated, running, ready, max_processes, invalid_pid, kernel_pid, overruns,
}
use claude_os_20day_challeng.Process.Links.{Queue, push_by_tail}
use claude_os_20day_challeng.Process.Links.Chain.{
  NotIn, Holds, Chain-modify, Chain-modify_same_next, push_by_tail-Holds, pop-Holds, pop-empty,
}
use claude_os_20day_challeng.Process.{
  Procs, kill, stop, stop_slot, free_slot, fill, create, enqueue, switch, requeue, dispatch,
  set_state, current_pid_or,
}
use claude_os_20day_challeng.Process.Ending.{kill-shape, kill-ends}
use claude_os_20day_challeng.Process.Invariant.{Inv, free_slot-some, current_pid_or-eq}

-- The slots wait in the ready queue in this order.
abbrev pub Waits : Procs → List ℕ → Type 0
Waits s xs = Holds s.process_table s.ready_queue xs

pub Holds-modify_same_next :
    (table : List Process) (q : Queue) (xs : List ℕ) (i : ℕ) (f : Process → Process)
    → ((p : Process) → (f p).next ≡ p.next)
    → Holds table q xs
    → Holds (modify table i f) q xs
Holds-modify_same_next table q xs i f same h = record {
  chain = Chain-modify_same_next table q.head xs i f same h.chain;
  at_end = h.at_end;
  distinct = h.distinct;
}

pub Holds-modify :
    (table : List Process) (q : Queue) (xs : List ℕ) (i : ℕ) (f : Process → Process)
    → NotIn i xs
    → Holds table q xs
    → Holds (modify table i f) q xs
Holds-modify table q xs i f out h = record {
  chain = Chain-modify table q.head xs i f out h.chain;
  at_end = h.at_end;
  distinct = h.distinct;
}

-- If the name has at most 31 bytes and the free slot that `process_create` takes does not stand in the
-- ready queue, the process gets the next pid and goes to the end of the ready queue, behind those that
-- wait, in their order. (The slot of a process that was killed and cleaned up may still stand there.)
pub create-Waits :
    (now entry : ℕ) (name : List ℕ) (s : Procs) (slot : ℕ) (xs : List ℕ)
    → Waits s xs
    → free_slot s.process_table ≡ some slot
    → NotIn slot xs
    → length name < 32
    → (r : ℕ × Procs) × (create now entry name s ≡ some r)
      × (r.0 ≡ s.next_pid)
      × Waits r.1 (xs ++ slot ∷ [])
unfolding create enqueue
create-Waits now entry name s slot xs w e out short =
    let fits : overruns name ≡ false = ground arith in
    let (old, at, free, pos) = free_slot-some s.process_table slot e in
    let put =
      fill s.next_pid (current_pid_or invalid_pid s.process_table s.current_process) entry name
        now in
    let s1 : Procs = record s {
      process_table = modify s.process_table slot put;
      next_pid = add32 s.next_pid 1;
    } in
    let inside : slot < length s1.process_table =
      rw (length-modify s.process_table slot put) (get_elem?-lt s.process_table slot at) in
    (
      (s.next_pid, enqueue slot s1),
      ground (arith, e, fits),
      refl,
      push_by_tail-Holds s1.process_table s1.ready_queue slot inside xs
          (Holds-modify s.process_table s.ready_queue xs slot put out w) out,
    )

-- With an empty ready queue `process_switch` does nothing.
pub switch-empty : (s : Procs) → Waits s [] → switch s ≡ (s, none)
unfolding switch
switch-empty s w = rw (pop-empty s.process_table s.ready_queue w, switch)

module _ (t : Procs) (c : ℕ) (p : Process) (runs : t.current_process ≡ some c)
    (at : get_elem? t.process_table c ≡ some p) where
  requeue_user :
      p.pid ≢ kernel_pid
      → requeue t ≡ record t {
        process_table =
            (push_by_tail (modify t.process_table c (set_state ready)) t.ready_queue c).0;
        ready_queue = (push_by_tail (modify t.process_table c (set_state ready)) t.ready_queue c).1;
      }
  unfolding requeue
  requeue_user user =
      let pid = current_pid_or-eq kernel_pid t.process_table t.current_process c p runs at in
      ground (arith, pid)

  requeue_kernel : p.pid ≡ kernel_pid → requeue t ≡ t
  unfolding requeue
  requeue_kernel kernel =
      let pid = current_pid_or-eq kernel_pid t.process_table t.current_process c p runs at in
      ground (arith, pid)

module _ (s : Procs) (x : ℕ) (xs : List ℕ) (w : Waits s (x ∷ xs)) where
  pub switch-Waits :
      (c : ℕ) (p : Process)
      → s.current_process ≡ some c
      → get_elem? s.process_table c ≡ some p
      → p.pid ≢ kernel_pid
      → NotIn c xs
      → ((switch s).0.current_process ≡ some x)
        × ((switch s).1 ≡ some (c, x))
        × Waits (switch s).0 (xs ++ c ∷ [])
  unfolding switch dispatch set_state
  switch-Waits c p runs at user out =
      let (q, e, rest) = pop-Holds s.process_table s.ready_queue x xs w in
      let back = modify s.process_table c (set_state ready) in
      let inside : c < length back =
        rw (length-modify s.process_table c (set_state ready))
          (get_elem?-lt s.process_table c at) in
      let queued =
        push_by_tail-Holds back q c inside xs
          (Holds-modify_same_next s.process_table q xs c (set_state ready) (λ p. refl) rest) out in
      rw (e, switch, requeue_user (record s { ready_queue = q }) c p runs at user)
        (
          refl,
          ground arith,
          Holds-modify_same_next _ _ (xs ++ c ∷ []) x (set_state running) (λ p. refl) queued,
        )

  -- From the kernel's process it goes to the first process too, and the queue only gets shorter.
  pub switch_kernel-Waits :
      (c : ℕ) (p : Process)
      → s.current_process ≡ some c
      → get_elem? s.process_table c ≡ some p
      → p.pid ≡ kernel_pid
      → ((switch s).0.current_process ≡ some x)
        × ((switch s).1 ≡ some (c, x))
        × Waits (switch s).0 xs
  unfolding switch dispatch set_state
  switch_kernel-Waits c p runs at kernel =
      let (q, e, rest) = pop-Holds s.process_table s.ready_queue x xs w in
      rw (e, switch, requeue_kernel (record s { ready_queue = q }) c p runs at kernel)
        (refl, ground arith, Holds-modify_same_next _ _ xs x (set_state running) (λ p. refl) rest)

-- A killed process stays in the ready queue, where it was.
kill-Waits : (s : Procs) (pid : ℕ) (xs : List ℕ) → Waits s xs → Waits (kill pid s).0 xs
unfolding stop_slot stop
kill-Waits s pid xs w = elim (kill-shape s pid) [
  | inl same ↦ rw same w
  | inr (i, e) ↦
      rw e
        (Holds-modify_same_next s.process_table s.ready_queue xs i (stop minus_one) (λ p. refl) w)
]

-- So the next `process_switch` runs it again, if it is the first of the queue: `process_kill` has
-- ended it, and it becomes the running process all the same.
pub switch-kill :
    (s : Procs) (x : ℕ) (xs : List ℕ) (p : Process)
    → Waits s (x ∷ xs)
    → Inv s.process_table s.next_pid
    → get_elem? s.process_table x ≡ some p
    → p.pid ≢ kernel_pid
    → p.pid < max_processes
    → p.state ≢ terminated
    → (get_elem? (kill p.pid s).0.process_table x
        ≡ some (record p { state = terminated; exit_code = minus_one; stack = 0 }))
      × ((switch (kill p.pid s).0).0.current_process ≡ some x)
unfolding switch dispatch
switch-kill s x xs p w v at user small alive =
    let s' = (kill p.pid s).0 in
    let (q, e, rest) =
      pop-Holds s'.process_table s'.ready_queue x xs (kill-Waits s p.pid (x ∷ xs) w) in
    ((kill-ends s x p v at user small alive).0, rw (e, switch) refl)
