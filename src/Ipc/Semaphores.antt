-- ===== src/Ipc/Semaphores.antt =====
-- The semaphores of kernel/ipc.c against counting semaphores with a list of waiting processes.
use claude_os_20day_challeng.Base.{
  ℕ, zero, suc, ◌+◌, ◌^◌, ◌<◌, ◌≡◌, ◌⊎◌, inl, inr, refl, ◌∙◌, true, false, not, ◌&&◌, some, List,
  [], ◌∷◌, ◌++◌, length, length-modify, get_elem?, get_elem?-modify_self, get_or-of_get_elem?,
  modify, find_index-modify, is_negative, ltb, ◌==◌, add32, sub32, arith,
}
use claude_os_20day_challeng.Process.Table.{Process, State}
use claude_os_20day_challeng.Process.Links.{Queue, push_by_head, set_next}
use claude_os_20day_challeng.Process.Links.Chain.{
  Holds, NotIn, push_by_head-Holds, pop-Holds, pop-empty,
}
use claude_os_20day_challeng.Process.Schedule.{Holds-modify, Holds-modify_same_next}
use claude_os_20day_challeng.Ipc.{
  Ipc, Semaphore, empty_semaphore, find_semaphore, semaphore_wait, semaphore_signal, set_value,
  set_waiting, wake, wake_first, block_current,
}
use claude_os_20day_challeng.Ipc.Effects.{
  States, block, block_at, woken, blocking-States, get_elem?-modify_at,
}

-- Slot `i` is the semaphore `id`, with value `v`, and these processes wait for it, in this order.
-- Processes wait only while the value is zero.
pub record Sem (s : Ipc) (i id v : ℕ) (xs : List ℕ) : Type 0 where
  pub slot : Semaphore
  pub at : get_elem? s.semaphore_pool i ≡ some slot
  pub found : find_semaphore id s ≡ some i
  pub value : slot.value ≡ v
  pub small : v < 2 ^ 31
  pub queue : Holds s.procs.process_table slot.waiting xs
  pub idle : (xs ≡ []) ⊎ (v ≡ 0)

-- A counting semaphore: what `wait` by `c` and `signal` return and leave.
abbrev pub wait_result : ℕ → ℕ
wait_result zero = 1
wait_result (suc v) = 0

abbrev pub wait_value : ℕ → ℕ
wait_value zero = 0
wait_value (suc v) = v

abbrev pub wait_list : ℕ → ℕ → List ℕ → List ℕ
wait_list c zero xs = xs ++ c ∷ []
wait_list c (suc v) xs = xs

abbrev pub signal_value : ℕ → List ℕ → ℕ
signal_value v [] = v + 1
signal_value v (x ∷ xs) = v

abbrev pub signal_list : List ℕ → List ℕ
signal_list [] = []
signal_list (x ∷ xs) = xs

-- The states of the processes after the wait by `c`.
abbrev pub wait_state : ℕ → ℕ → ℕ → State → State
wait_state c zero j st = block_at c j st
wait_state c (suc v) j st = st

-- A change of one semaphore's value or queue leaves the search for ids as it was.
find_semaphore-modify :
    (id i : ℕ) (s t : Ipc) (f : Semaphore → Semaphore)
    → t.semaphore_pool ≡ modify s.semaphore_pool i f
    → ((m : Semaphore) → ((f m).in_use && (f m).id == id) ≡ (m.in_use && m.id == id))
    → find_semaphore id t ≡ find_semaphore id s
unfolding find_semaphore
find_semaphore-modify id i s t f e same =
    rw e (find_index-modify (λ m. m.in_use && m.id == id) s.semaphore_pool i f same)

module _ (s : Ipc) (i id : ℕ) where
  wait_positive :
      (v : ℕ) (xs : List ℕ)
      → Sem s i id (suc v) xs
      → semaphore_wait id s
        ≡ (0, record s { semaphore_pool = modify s.semaphore_pool i (set_value v) })
  unfolding semaphore_wait
  wait_positive v xs h =
      let slot = get_or-of_get_elem? s.semaphore_pool i h.slot empty_semaphore h.at in
      let positive : (not (is_negative h.slot.value) && ltb 0 h.slot.value) ≡ true =
        ground (arith, h.value, h.small) in
      let less : sub32 h.slot.value 1 ≡ v = omega (arith, h.value, h.small) in
      rw (semaphore_wait, h.found, slot, positive, less) refl

  wait_zero :
      (xs : List ℕ)
      → (h : Sem s i id 0 xs) → semaphore_wait id s ≡ (1, block_current i h.slot.waiting s)
  unfolding semaphore_wait
  wait_zero xs h =
      let slot = get_or-of_get_elem? s.semaphore_pool i h.slot empty_semaphore h.at in
      let none_left : (not (is_negative h.slot.value) && ltb 0 h.slot.value) ≡ false =
        ground (arith, h.value) in
      rw (semaphore_wait, h.found, slot, none_left) refl

-- The state after the running process `c` has joined the queue.
unfoldable pub blocked_at : ℕ → ℕ → Queue → Ipc → Ipc
unfolding set_waiting
blocked_at c i waiting s = record s {
  procs = record s.procs {
    process_table = (push_by_head (modify s.procs.process_table c block) waiting c).0;
  };
  semaphore_pool =
      modify s.semaphore_pool i
        (set_waiting (push_by_head (modify s.procs.process_table c block) waiting c).1);
}

block_current-runs :
    (c i : ℕ) (waiting : Queue) (s : Ipc)
    → s.procs.current_process ≡ some c
    → block_current i waiting s ≡ blocked_at c i waiting s
unfolding block_current blocked_at
block_current-runs c i waiting s runs = ground (arith, runs)

pub wait_blocked :
    (s : Ipc) (i id c : ℕ) (xs : List ℕ)
    → (h : Sem s i id 0 xs) → s.procs.current_process ≡ some c
    → semaphore_wait id s ≡ (1, blocked_at c i h.slot.waiting s)
wait_blocked s i id c xs h runs =
    rw (wait_zero s i id xs h, block_current-runs c i h.slot.waiting s runs) refl

-- `ipc_semaphore_wait` by the running process `c`, which does not wait for the semaphore yet, is the
-- wait of a counting semaphore: with a positive value it takes one off and returns 0, and no process
-- changes; otherwise it returns 1, `c` is BLOCKED and the last of those that wait, and no other process
-- changes its state.
pub semaphore_wait-Sem :
    (s : Ipc) (i id v c : ℕ) (xs : List ℕ)
    → Sem s i id v xs
    → s.procs.current_process ≡ some c
    → c < length s.procs.process_table
    → NotIn c xs
    → let (r, s') = semaphore_wait id s in
      (r ≡ wait_result v)
      × Sem s' i id (wait_value v) (wait_list c v xs)
      × States s.procs.process_table s'.procs.process_table (wait_state c v)
unfolding set_value set_waiting blocked_at
semaphore_wait-Sem s i id (suc v) c xs h runs inside out = rw (wait_positive s i id v xs h) (
  refl,
  record {
    slot = set_value v h.slot;
    at = get_elem?-modify_self s.semaphore_pool i (set_value v) h.slot h.at;
    found = find_semaphore-modify id i s _ (set_value v) refl (λ m. refl) ∙ h.found;
    value = refl;
    small = omega (arith, h.small);
    queue = h.queue;
    idle = ground (arith, h.idle);
  },
  (λ j p at. (p, at, refl, refl)),
)
semaphore_wait-Sem s i id zero c xs h runs inside out =
    let q = (push_by_head (modify s.procs.process_table c block) h.slot.waiting c).1 in
    rw (wait_blocked s i id c xs h runs) (
      refl,
      record {
        slot = set_waiting q h.slot;
        at = get_elem?-modify_self s.semaphore_pool i (set_waiting q) h.slot h.at;
        found = find_semaphore-modify id i s _ (set_waiting q) refl (λ m. refl) ∙ h.found;
        value = h.value;
        small = h.small;
        queue =
            push_by_head-Holds (modify s.procs.process_table c block) h.slot.waiting c
              (rw (length-modify s.procs.process_table c block) inside) xs
              (Holds-modify_same_next s.procs.process_table h.slot.waiting xs c block (λ p. refl)
                h.queue)
              out;
        idle = inr refl;
      },
      blocking-States s.procs.process_table h.slot.waiting c,
    )

-- `ipc_semaphore_signal` is the signal of a counting semaphore: if processes wait, the one that has
-- waited longest leaves the queue and is READY, and otherwise the value grows by one; no other process
-- changes, and it returns 0.
pub semaphore_signal-Sem :
    (s : Ipc) (i id v : ℕ) (xs : List ℕ)
    → Sem s i id v xs
    → v + 1 < 2 ^ 31
    → let (r, s') = semaphore_signal id s in
      (r ≡ 0)
      × Sem s' i id (signal_value v xs) (signal_list xs)
      × ((j : ℕ) (p : Process)
          → get_elem? s.procs.process_table j ≡ some p
          → get_elem? s'.procs.process_table j ≡ some (woken xs j p))
unfolding semaphore_signal set_value set_waiting wake_first wake set_next
semaphore_signal-Sem s i id v [] h room =
    let slot = get_or-of_get_elem? s.semaphore_pool i h.slot empty_semaphore h.at in
    let more : add32 h.slot.value 1 ≡ v + 1 = omega (arith, h.value) in
    rw
      (
        semaphore_signal,
        h.found,
        slot,
        pop-empty s.procs.process_table h.slot.waiting h.queue,
        slot,
        more,
      )
      (
        refl,
        record {
          slot = set_value (v + 1) h.slot;
          at = get_elem?-modify_self s.semaphore_pool i (set_value (v + 1)) h.slot h.at;
          found = find_semaphore-modify id i s _ (set_value (v + 1)) refl (λ m. refl) ∙ h.found;
          value = refl;
          small = room;
          queue = h.queue;
          idle = inl refl;
        },
        (λ j p at. at),
      )
semaphore_signal-Sem s i id v (x ∷ xs) h room =
    let slot = get_or-of_get_elem? s.semaphore_pool i h.slot empty_semaphore h.at in
    let (q, e, rest) = pop-Holds s.procs.process_table h.slot.waiting x xs h.queue in
    rw (semaphore_signal, h.found, slot, e)
      (
        refl,
        record {
          slot = set_waiting q h.slot;
          at = get_elem?-modify_self s.semaphore_pool i (set_waiting q) h.slot h.at;
          found = find_semaphore-modify id i s _ (set_waiting q) refl (λ m. refl) ∙ h.found;
          value = h.value;
          small = h.small;
          queue = Holds-modify s.procs.process_table q xs x wake h.queue.distinct.0 rest;
          idle = ground (arith, h.idle);
        },
        get_elem?-modify_at s.procs.process_table x wake,
      )
