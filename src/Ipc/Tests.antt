-- ===== src/Ipc/Tests.antt =====
-- Runs of kernel/ipc.c, and its theorems at concrete states.
use claude_os_20day_challeng.Base.{
  ℕ, ◌≡◌, inl, inr, ◌++◌, refl, true, false, none, some, List, [], ◌∷◌, length, get_elem?,
  replicate, modify, find_index, count_if, minus_one, arith,
}
use claude_os_20day_challeng.Process
use claude_os_20day_challeng.Process.{Procs, switch, current_pid_or}
use claude_os_20day_challeng.Process.Table.{Process, ready, running, blocked, empty_slot}
use claude_os_20day_challeng.Process.Links.{Queue, empty, push_by_head, set_next, link}
use claude_os_20day_challeng.Process.Links.Chain.{Holds}
use claude_os_20day_challeng.Process.Schedule.{Waits}
use claude_os_20day_challeng.Process.Tests.{kernel_slot, user, one_runs, one_runs-Waits}
use claude_os_20day_challeng.Ipc.{
  Ipc, Message, Semaphore, empty_message, empty_semaphore, empty_shared_memory,
  invalid_semaphore_id, max_messages, own_pid, send_message, receive_message, message_count, post,
  clear, overwrite, create_semaphore, find_semaphore, semaphore_wait, semaphore_signal,
  destroy_semaphore,
}
use claude_os_20day_challeng.Ipc.Messages.{receive_message-send_message}
use claude_os_20day_challeng.Ipc.Effects.{States, woken}
use claude_os_20day_challeng.Ipc.Semaphores.{
  Sem, wait_state, semaphore_wait-Sem, semaphore_signal-Sem,
}
use claude_os_20day_challeng.Ipc.Dispatch.{switch-semaphore_wait}
use claude_os_20day_challeng.Ipc.Destroy.{AllReady, destroy_semaphore-AllReady}

abbrev slot_of : ℕ → Queue → Semaphore
slot_of value waiting = record empty_semaphore {
  id = 1;
  value = value;
  in_use = true;
  waiting = waiting;
  name = 0x6d ∷ [];
}

-- Process 1 runs, process 2 is ready, and the semaphore has the value 0.
abbrev with_sem : ℕ → Queue → Procs → Ipc
with_sem value waiting procs = record {
  procs = procs;
  message_pool = replicate max_messages empty_message;
  semaphore_pool = slot_of value waiting ∷ replicate 7 empty_semaphore;
  shared_memory_pool = replicate 8 empty_shared_memory;
  next_semaphore_id = 2;
}

abbrev taken : Ipc
taken = with_sem 0 empty one_runs

create_first :
    create_semaphore 0
      (some (0x6d ∷ []))
      0
      (record taken { semaphore_pool = replicate 8 empty_semaphore; next_semaphore_id = 1 })
    ≡ (1, taken)
unfolding create_semaphore find_index
create_first = refl

taken-Sem : Sem taken 0 1 0 []
unfolding find_semaphore find_index
taken-Sem = record {
  slot = slot_of 0 empty;
  at = refl;
  found = refl;
  value = refl;
  small = omega arith;
  queue = record { chain = refl; at_end = refl; distinct = tt };
  idle = inr refl;
}

-- Process 1 waits for the semaphore.
abbrev waited : Ipc
waited =
    with_sem 0 (record { head = some 1; tail = some 1 })
      (record one_runs {
        process_table =
            kernel_slot ∷ user 1 none blocked ∷ user 2 none ready ∷ replicate 5 empty_slot;
      })

waited-Sem : Sem waited 0 1 0 (1 ∷ [])
unfolding find_semaphore find_index
waited-Sem = record {
  slot = slot_of 0 (record { head = some 1; tail = some 1 });
  at = refl;
  found = refl;
  value = refl;
  small = omega arith;
  queue = record {
    chain = (refl, user 1 none blocked, refl, refl);
    at_end = refl;
    distinct = (tt, tt);
  };
  idle = inr refl;
}

semaphore_wait-Sem_example :
    let (r, s') = semaphore_wait 1 taken in
    (r ≡ 1)
    × Sem s' 0 1 0 (1 ∷ [])
    × States taken.procs.process_table s'.procs.process_table (wait_state 1 0)
semaphore_wait-Sem_example = semaphore_wait-Sem taken 0 1 0 1 [] taken-Sem refl (omega arith) tt

semaphore_signal-Sem_example :
    let (r, s') = semaphore_signal 1 waited in
    (r ≡ 0)
    × Sem s' 0 1 0 []
    × ((j : ℕ) (p : Process)
        → get_elem? waited.procs.process_table j ≡ some p
        → get_elem? s'.procs.process_table j ≡ some (woken (1 ∷ []) j p))
semaphore_signal-Sem_example = semaphore_signal-Sem waited 0 1 0 (1 ∷ []) waited-Sem (omega arith)

-- The kernel's process runs, as when a command of the shell waits. It waits twice: it is its own
-- successor in the waiting queue.
abbrev kernel_runs : Ipc
kernel_runs = with_sem 0 empty (record one_runs { current_process = some 0 })

waits_twice :
    get_elem? (semaphore_wait 1 (semaphore_wait 1 kernel_runs).1).1.procs.process_table 0
    ≡ some (record kernel_slot { state = blocked; next = some 0 })
unfolding semaphore_wait find_semaphore find_index push_by_head set_next link
waits_twice = refl

destroy_semaphore-AllReady_example :
    let (r, s') = destroy_semaphore 1 waited in
    (r ≡ 0)
    × AllReady s'.procs.process_table (1 ∷ [])
    × ((m : Semaphore) × (get_elem? s'.semaphore_pool 0 ≡ some m)
        × (m.in_use ≡ false)
        × (m.id ≡ invalid_semaphore_id)
        × Holds s'.procs.process_table m.waiting [])
destroy_semaphore-AllReady_example =
    destroy_semaphore-AllReady waited 0 1 0 (1 ∷ []) waited-Sem (omega arith)

switch-semaphore_wait_example :
    let s' = (semaphore_wait 1 taken).1.procs in
    ((q : Process) × (get_elem? s'.process_table 1 ≡ some q) × (q.state ≡ blocked))
    × ((switch s').0.current_process ≡ some 2)
    × Waits (switch s').0 (1 ∷ [])
switch-semaphore_wait_example =
    switch-semaphore_wait taken 0 1 1 [] (2 ∷ []) (user 1 (some 2) running) taken-Sem one_runs-Waits
      refl refl (λ e. omega arith) ((λ e. omega arith), tt) (λ t e. cc)

-- "hi" from process 1 to process 2.
abbrev hi : List ℕ
hi = 0x68 ∷ 0x69 ∷ []

abbrev sent : Ipc
sent = record taken {
  message_pool =
      record {
        sender_pid = 1;
        receiver_pid = 2;
        message_size = 2;
        content = 0x68 ∷ 0x69 ∷ replicate 254 0;
        is_used = true;
        timestamp = 7;
      }
      ∷ replicate 15 empty_message;
}

send_hi : send_message 7 2 (some hi) 2 taken ≡ (0, sent)
unfolding send_message Process.find find_index current_pid_or post overwrite
send_hi = refl

full_content : (m : Message) → get_elem? taken.message_pool 0 ≡ some m → length m.content ≡ 256
full_content m e = ground arith

receive_message-send_message_example :
    let t = record sent { procs = record one_runs { current_process = some 2 } } in
    receive_message minus_one 16 t
    ≡ (own_pid taken, hi ++ 0 ∷ [], record t { message_pool = modify t.message_pool 0 clear })
unfolding message_count count_if current_pid_or
receive_message-send_message_example =
    receive_message-send_message 7 2 minus_one hi 2 taken 0 sent
      (record sent { procs = record one_runs { current_process = some 2 } }) 16 full_content
      (omega arith) refl send_hi (λ e. omega arith) refl refl (inl refl) (omega arith)
