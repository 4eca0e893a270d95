-- ===== src/Process/Tests.antt =====
-- Runs of kernel/process.c, and its theorems at concrete states.
use claude_os_20day_challeng.Base.{
  ℕ, ◌<◌, ◌≡◌, ◌≢◌, ◌⊎◌, refl, true, false, Option, none, some, [], ◌∷◌, get_elem?, replicate,
  find_index, count_if, minus_one, arith,
}
use claude_os_20day_challeng.Process.Table.{
  Process, State, ready, running, terminated, max_processes, kernel_pid, empty_slot, default_eflags,
}
use claude_os_20day_challeng.Process.{
  Procs, vmm_init, init, kernel_process, create, enqueue, free_slot, fill, current_pid_or, find,
  kill, cleanup_terminated, switch, requeue, dispatch, set_state, count_by_state, get_count,
}
use claude_os_20day_challeng.Process.Links.{empty, push_by_tail, pop, set_next}
use claude_os_20day_challeng.Process.Invariant.{Inv}
use claude_os_20day_challeng.Process.Lifecycle.{create-Inv, find-large}
use claude_os_20day_challeng.Process.Ending.{kill-guards}
use claude_os_20day_challeng.Process.Schedule.{Waits, create-Waits, switch-kill}
use claude_os_20day_challeng.Process.Boot.{init_starts_kernel}

abbrev cold : Procs
cold = record {
  process_table = [];
  current_process = none;
  ready_queue = empty;
  next_pid = 1;
  initialized = false;
}

abbrev pub kernel_slot : Process
kernel_slot = record empty_slot {
  pid = 0;
  state = running;
  name = 0x6b ∷ 0x65 ∷ 0x72 ∷ 0x6e ∷ 0x65 ∷ 0x6c ∷ [];
}

abbrev pub user : ℕ → Option ℕ → State → Process
user pid next state = record empty_slot {
  pid = pid;
  parent_pid = 0;
  state = state;
  name = 0x74 ∷ [];
  creation_time = 5;
  eip = 0x1000;
  eflags = default_eflags;
  next = next;
}

abbrev booted : Procs
booted = record {
  process_table = kernel_slot ∷ replicate 7 empty_slot;
  current_process = some 0;
  ready_queue = empty;
  next_pid = 1;
  initialized = true;
}

abbrev one_ready : Procs
one_ready = record {
  process_table = kernel_slot ∷ user 1 none ready ∷ replicate 6 empty_slot;
  current_process = some 0;
  ready_queue = record { head = some 1; tail = some 1 };
  next_pid = 2;
  initialized = true;
}

abbrev pub two_ready : Procs
two_ready = record {
  process_table = kernel_slot ∷ user 1 (some 2) ready ∷ user 2 none ready ∷ replicate 5 empty_slot;
  current_process = some 0;
  ready_queue = record { head = some 1; tail = some 2 };
  next_pid = 3;
  initialized = true;
}

-- The first of the two runs, the second waits.
abbrev pub one_runs : Procs
one_runs = record two_ready {
  process_table =
      kernel_slot ∷ user 1 (some 2) running ∷ user 2 none ready ∷ replicate 5 empty_slot;
  current_process = some 1;
  ready_queue = record { head = some 2; tail = some 2 };
}

init-cold : init 0 false true cold ≡ (booted, vmm_init ∷ [])
unfolding init kernel_process
init-cold = refl

create_first : create 5 0x1000 (0x74 ∷ []) booted ≡ some (1, one_ready)
unfolding create free_slot fill enqueue push_by_tail set_next current_pid_or find_index
create_first = refl

create_second : create 5 0x1000 (0x74 ∷ []) one_ready ≡ some (2, two_ready)
unfolding create free_slot fill enqueue push_by_tail set_next current_pid_or find_index
create_second = refl

switch_once : (switch two_ready).0 ≡ one_runs
unfolding switch requeue dispatch set_state push_by_tail pop set_next current_pid_or
switch_once = refl

counts :
    (count_by_state ready two_ready.process_table ≡ 2) × (get_count two_ready.process_table ≡ 3)
unfolding count_by_state get_count count_if
counts = (refl, refl)

booted-Inv : Inv booted.process_table 1
unfolding init kernel_process
booted-Inv = (init_starts_kernel 0 true true cold refl (omega arith)).0

one_ready-Inv : Inv one_ready.process_table 2
one_ready-Inv =
    create-Inv 5 0x1000 (0x74 ∷ []) booted (1, one_ready) booted-Inv (omega arith) create_first

two_ready-Inv : Inv two_ready.process_table 3
two_ready-Inv =
    create-Inv 5 0x1000 (0x74 ∷ []) one_ready (2, two_ready) one_ready-Inv (omega arith)
      create_second

two_ready-Waits : Waits two_ready (1 ∷ 2 ∷ [])
two_ready-Waits = record {
  chain = (refl, user 1 (some 2) ready, refl, (refl, user 2 none ready, refl, refl));
  at_end = refl;
  distinct = (((λ e. omega arith), tt), (tt, tt));
}

pub one_runs-Waits : Waits one_runs (2 ∷ [])
one_runs-Waits = record {
  chain = (refl, user 2 none ready, refl, refl);
  at_end = refl;
  distinct = (tt, tt);
}

-- Process 1 is killed and cleaned up while it waits, and its slot is taken again: the queue that held
-- the slots 1 and 2 then starts and ends at slot 1, and process 2 is lost.
create_reused :
    create 5 0x1000 (0x74 ∷ []) (cleanup_terminated (kill 1 two_ready).0)
    ≡ some (
      3,
      record two_ready {
        process_table =
            kernel_slot ∷ user 3 none ready ∷ user 2 (some 1) ready ∷ replicate 5 empty_slot;
        ready_queue = record { head = some 1; tail = some 1 };
        next_pid = 4;
      },
    )
unfolding create free_slot fill enqueue push_by_tail set_next current_pid_or find_index kill
    cleanup_terminated
create_reused = refl

create-Waits_example :
    (r : ℕ × Procs) × (create 5 0x1000 (0x74 ∷ []) one_ready ≡ some r)
    × (r.0 ≡ 2)
    × Waits r.1 (1 ∷ 2 ∷ [])
unfolding free_slot find_index
create-Waits_example =
    create-Waits 5 0x1000 (0x74 ∷ []) one_ready 2 (1 ∷ [])
      (record { chain = (refl, user 1 none ready, refl, refl); at_end = refl; distinct = (tt, tt) })
      refl ((λ e. omega arith), tt) (omega arith)

find-large_example : find two_ready.process_table 9 ≡ none
find-large_example = find-large two_ready.process_table 9 (omega arith)

switch-kill_example :
    (get_elem? (kill 1 two_ready).0.process_table 1
      ≡ some (record (user 1 (some 2) terminated) { exit_code = minus_one }))
    × ((switch (kill 1 two_ready).0).0.current_process ≡ some 1)
switch-kill_example =
    switch-kill two_ready 1 (2 ∷ []) (user 1 (some 2) ready) two_ready-Waits two_ready-Inv refl
      (λ e. omega arith) (omega arith) (λ e. cc)

kill-guards_example :
    (kill 0 two_ready ≡ (two_ready, none))
    ⊎ ((i : ℕ) × (p : Process) × (get_elem? two_ready.process_table i ≡ some p)
        × (p.pid ≡ 0)
        × (◌≢◌ {A = ℕ} 0 kernel_pid)
        × (0 < max_processes)
        × (p.state ≢ terminated))
kill-guards_example = kill-guards two_ready 0
