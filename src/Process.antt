-- ===== src/Process.antt =====
-- The process table and the ready queue of kernel/process.c. A `process_t *` is the slot of the
-- table that it points into; what is printed is left out.
pub mod Table
pub mod Links
pub mod Invariant
pub mod Lifecycle
pub mod Ending
pub mod Schedule
pub mod Boot
pub mod Tests
use Table.{
  Process, State, ready, running, blocked, terminated, created, max_processes, invalid_pid,
  kernel_pid, default_eflags, is_free, has_pid, in_state, empty_slot, overruns,
}
use Links.{Queue, push_by_tail, pop}
use claude_os_20day_challeng.Base.{
  ℕ, zero, suc, ◌+◌, Bool, true, false, not, ◌&&◌, ◌||◌, Option, none, some, List, [], ◌∷◌,
  get_elem?, get_or, modify, replicate, length, map, find_index, count_if, ltb, leb, ◌==◌,
  if◌then◌else◌, add32, minus_one, is_negative,
}

-- The global variables of process.c.
pub record Procs : Type 0 where
  pub process_table : List Process
  pub current_process : Option ℕ
  pub ready_queue : Queue
  pub next_pid : ℕ
  pub initialized : Bool

-- What `process_init` starts first, where it is not running yet.
pub data Startup : Type 0 where
  vmm_init heap_init : Startup

kernel_process : ℕ → Process
kernel_process now = record empty_slot {
  pid = kernel_pid;
  state = running;
  name = 0x6b ∷ 0x65 ∷ 0x72 ∷ 0x6e ∷ 0x65 ∷ 0x6c ∷ [];
  creation_time = now;
}

-- `process_init`, with the clock, and whether there is a page directory and a heap.
pub init : ℕ → Bool → Bool → Procs → Procs × List Startup
unfolding kernel_process
init now has_directory has_heap s = if s.initialized then (s, []) else (
  record {
    process_table =
        modify (replicate max_processes empty_slot) kernel_pid (λ _. kernel_process now);
    current_process = some kernel_pid;
    ready_queue = record { head = none; tail = none };
    next_pid = s.next_pid;
    initialized = true;
  },
  if has_directory
      then (if has_heap then [] else heap_init ∷ [])
      else (if has_heap then vmm_init ∷ [] else vmm_init ∷ heap_init ∷ []),
)

-- The pid of the running process, or what stands for none.
unfoldable pub current_pid_or : ℕ → List Process → Option ℕ → ℕ
current_pid_or d table none = d
current_pid_or d table (some i) = elim (get_elem? table i) [ none ↦ d | some p ↦ p.pid ]

-- The slot from 1 on that the search `for (i = FIRST_USER_PID; ...)` stops at.
pub free_slot : List Process → Option ℕ
free_slot [] = none
free_slot (k ∷ ps) = elim (find_index is_free ps) [ none ↦ none | some i ↦ some (suc i) ]

fill : ℕ → ℕ → ℕ → List ℕ → ℕ → Process → Process
fill pid parent entry name now p = record p {
  pid = pid;
  parent_pid = parent;
  state = ready;
  name = name;
  creation_time = now;
  cpu_time = 0;
  exit_code = 0;
  stack = 0;
  stack_size = 0;
  memory_usage = 0;
  esp = 0;
  ebp = 0;
  eip = entry;
  eflags = default_eflags;
  next = none;
}

-- `process_create_simple`: the new pid or -1. `none` is the write past `name[32]`.
pub create_simple : ℕ → ℕ → List ℕ → Procs → Option (ℕ × Procs)
unfolding fill current_pid_or
create_simple now entry name s = elim (free_slot s.process_table) [
  | none ↦ some (invalid_pid, s)
  | some slot ↦
      if overruns name
      then none
      else some (
        s.next_pid,
        record s {
          process_table = modify s.process_table slot (
              fill s.next_pid (current_pid_or invalid_pid s.process_table s.current_process) entry
                name now);
          next_pid = add32 s.next_pid 1;
        },
      )
]

enqueue : ℕ → Procs → Procs
enqueue slot s =
    let (table, queue) = push_by_tail s.process_table s.ready_queue slot in
    record s { process_table = table; ready_queue = queue }

-- `process_create`: the same, and the process joins the ready queue.
pub create : ℕ → ℕ → List ℕ → Procs → Option (ℕ × Procs)
unfolding fill current_pid_or enqueue
create now entry name s = elim (free_slot s.process_table) [
  | none ↦ some (invalid_pid, s)
  | some slot ↦
      if overruns name
      then none
      else some (
        s.next_pid,
        enqueue slot (record s {
          process_table = modify s.process_table slot (
              fill s.next_pid (current_pid_or invalid_pid s.process_table s.current_process) entry
                name now);
          next_pid = add32 s.next_pid 1;
        }),
      )
]

-- `process_find`: the slot.
unfoldable pub find : List Process → ℕ → Option ℕ
find table pid =
    if is_negative pid || leb max_processes pid then none else find_index (has_pid pid) table

stop : ℕ → Process → Process
stop code p = record p { state = terminated; exit_code = code; stack = 0 }

-- What is handed to `kfree`, if the process has a stack of its own.
stack_of : List Process → ℕ → Option ℕ
stack_of table i = elim (get_elem? table i) [
  | none ↦ none
  | some p ↦ if p.stack == 0 then none else some p.stack
]

pub stop_slot : ℕ → ℕ → Procs → Procs × Option ℕ
stop_slot code i s =
    (record s { process_table = modify s.process_table i (stop code) }, stack_of s.process_table i)

-- `process_exit`, with the pointer that it frees.
pub exit : ℕ → Procs → Procs × Option ℕ
unfolding stop stack_of stop_slot current_pid_or
exit code s = elim s.current_process [
  | none ↦ (s, none)
  | some i ↦
      if current_pid_or kernel_pid s.process_table s.current_process == kernel_pid
      then (s, none)
      else stop_slot code i s
]

-- `process_kill`, with the pointer that it frees.
pub kill : ℕ → Procs → Procs × Option ℕ
unfolding stop stack_of stop_slot find
kill pid s = elim (find s.process_table pid) [
  | none ↦ (s, none)
  | some i ↦
      let p = get_or s.process_table i empty_slot in
      if p.pid == kernel_pid
      then (s, none)
      else (if in_state terminated p then (s, none) else stop_slot minus_one i s)
]

pub count_by_state : State → List Process → ℕ
count_by_state st table = count_if (λ p. not (is_free p) && in_state st p) table

-- `process_get_count`.
pub get_count : List Process → ℕ
get_count table =
    count_if
      (λ p. not (is_free p) && (in_state ready p || in_state running p || in_state blocked p)) table

reap : Process → Process
reap p =
    if not (is_free p) && in_state terminated p && not (p.pid == kernel_pid)
    then record p { pid = invalid_pid }
    else p

-- `process_cleanup_terminated`.
pub cleanup_terminated : Procs → Procs
unfolding reap
cleanup_terminated s = record s { process_table = map reap s.process_table }

unfoldable pub set_state : State → Process → Process
set_state st p = record p { state = st }

-- The running process goes back to the queue, unless it is the kernel's.
requeue : Procs → Procs
unfolding set_state current_pid_or
requeue s = elim s.current_process [
  | none ↦ s
  | some i ↦
      if current_pid_or kernel_pid s.process_table s.current_process == kernel_pid
      then s
      else (let (table, queue) =
            push_by_tail (modify s.process_table i (set_state ready)) s.ready_queue i in
          record s { process_table = table; ready_queue = queue })
]

dispatch : ℕ → Procs → Procs
unfolding set_state
dispatch new s = record s {
  process_table = modify s.process_table new (set_state running);
  current_process = some new;
}

-- `process_switch` and `process_yield`, up to the call of `switch_context`, with the slots that it is
-- called on: the old and the new process.
pub switch : Procs → Procs × Option (ℕ × ℕ)
unfolding requeue dispatch
switch s = elim (pop s.process_table s.ready_queue) [
  | none ↦ (s, none)
  | some (new, queue) ↦ (
    dispatch new (requeue (record s { ready_queue = queue })),
    elim s.current_process [ none ↦ none | some old ↦ some (old, new) ],
  )
]
