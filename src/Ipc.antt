-- ===== src/Ipc.antt =====
-- Messages and semaphores between processes, of kernel/ipc.c. What is printed is left out.
pub mod Messages
mod Effects
pub mod Semaphores
mod Dispatch
pub mod Destroy
pub mod Tests
use claude_os_20day_challeng.Base.{
  ℕ, zero, suc, ◌+◌, ◌-◌, Bool, true, false, not, ◌&&◌, ◌||◌, Option, none, some, List, [], ◌∷◌,
  ◌++◌, get_elem?, get_or, modify, replicate, take, find_index, count_if, ltb, leb, ◌==◌,
  if◌then◌else◌, add32, sub32, minus_one, is_negative,
}
use claude_os_20day_challeng.Process
use claude_os_20day_challeng.Process.{Procs, current_pid_or, set_state}
use claude_os_20day_challeng.Process.Table.{Process, State, blocked, ready, invalid_pid}
use claude_os_20day_challeng.Process.Links.{Queue, empty, push_by_head, pop, set_next}

abbrev pub max_messages : ℕ
max_messages = 16

abbrev pub max_message_size : ℕ
max_message_size = 256

abbrev pub max_semaphores : ℕ
max_semaphores = 8

abbrev pub invalid_semaphore_id : ℕ
invalid_semaphore_id = minus_one

-- `message_t`.
pub record Message : Type 0 where
  pub sender_pid : ℕ
  pub receiver_pid : ℕ
  pub message_size : ℕ
  pub content : List ℕ
  pub is_used : Bool
  pub timestamp : ℕ

-- `semaphore_t`; `name` holds the bytes before the NUL.
pub record Semaphore : Type 0 where
  pub id : ℕ
  pub value : ℕ
  pub in_use : Bool
  pub waiting : Queue
  pub name : List ℕ
  pub creation_time : ℕ

-- `shared_memory_t`: the slots are initialised, and no function uses them.
pub record SharedMemory : Type 0 where
  pub id : ℕ
  pub address : ℕ
  pub size : ℕ
  pub owner_pid : ℕ
  pub in_use : Bool

-- The globals of ipc.c, with those of process.c that they work on.
pub record Ipc : Type 0 where
  pub procs : Procs
  pub message_pool : List Message
  pub semaphore_pool : List Semaphore
  pub shared_memory_pool : List SharedMemory
  pub next_semaphore_id : ℕ

abbrev pub empty_message : Message
empty_message = record {
  sender_pid = invalid_pid;
  receiver_pid = invalid_pid;
  message_size = 0;
  content = replicate max_message_size 0;
  is_used = false;
  timestamp = 0;
}

abbrev pub empty_semaphore : Semaphore
empty_semaphore = record {
  id = invalid_semaphore_id;
  value = 0;
  in_use = false;
  waiting = empty;
  name = [];
  creation_time = 0;
}

abbrev pub empty_shared_memory : SharedMemory
empty_shared_memory = record {
  id = minus_one;
  address = 0;
  size = 0;
  owner_pid = invalid_pid;
  in_use = false;
}

-- `ipc_init`.
pub init : Procs → Ipc
init procs = record {
  procs = procs;
  message_pool = replicate max_messages empty_message;
  semaphore_pool = replicate max_semaphores empty_semaphore;
  shared_memory_pool = replicate 8 empty_shared_memory;
  next_semaphore_id = 1;
}

-- `for (j = 0; j < n; j++) array[j] = bytes[j];`: the rest of the array stays.
unfoldable pub overwrite : List ℕ → List ℕ → List ℕ
overwrite [] old = old
overwrite (b ∷ bytes) [] = []
overwrite (b ∷ bytes) (c ∷ old) = b ∷ overwrite bytes old

abbrev pub unused : Message → Bool
unused m = not m.is_used

-- The pid in whose name a message is sent or received: 0 where no process runs.
abbrev pub own_pid : Ipc → ℕ
own_pid s = current_pid_or 0 s.procs.process_table s.procs.current_process

post : ℕ → ℕ → ℕ → List ℕ → ℕ → Message → Message
post sender receiver size bytes now m = record {
  sender_pid = sender;
  receiver_pid = receiver;
  message_size = size;
  content = overwrite (take size bytes) m.content;
  is_used = true;
  timestamp = now;
}

-- `ipc_send_message`: the slot or -1. `none` for the data is a NULL pointer; the buffer behind another
-- holds at least `size` bytes.
pub send_message : ℕ → ℕ → Option (List ℕ) → ℕ → Ipc → ℕ × Ipc
send_message now receiver none size s = (minus_one, s)
send_message now receiver (some bytes) size s =
    if size == 0 || ltb max_message_size size
    then (minus_one, s)
    else elim (Process.find s.procs.process_table receiver) [
      | none ↦ (minus_one, s)
      | some _ ↦ elim (find_index unused s.message_pool) [
        | none ↦ (minus_one, s)
        | some i ↦ (
          i,
          record s {
            message_pool = modify s.message_pool i (post (own_pid s) receiver size bytes now);
          },
        )
      ]
    ]

-- The test of the search of `ipc_receive_message`; a sender of -1 stands for any.
abbrev pub is_for : ℕ → ℕ → Message → Bool
is_for receiver sender m =
    m.is_used && m.receiver_pid == receiver && (sender == minus_one || m.sender_pid == sender)

pub clear : Message → Message
clear m = record m { is_used = false; sender_pid = invalid_pid; receiver_pid = invalid_pid }

-- The bytes that a receiver gets: as many as fit before the NUL.
abbrev pub delivered : ℕ → Message → List ℕ
delivered buffer_size m =
    take (if ltb (buffer_size - 1) m.message_size then buffer_size - 1 else m.message_size)
      m.content
    ++ 0 ∷ []

-- `ipc_receive_message`: the sender or -1, and what is written to the buffer. A size of 0 stands for
-- a NULL buffer too.
pub receive_message : ℕ → ℕ → Ipc → ℕ × List ℕ × Ipc
receive_message sender buffer_size s =
    if buffer_size == 0
    then (minus_one, [], s)
    else elim (find_index (is_for (own_pid s) sender) s.message_pool) [
      | none ↦ (minus_one, [], s)
      | some i ↦
          let m = get_or s.message_pool i empty_message in
          (
            m.sender_pid,
            delivered buffer_size m,
            record s { message_pool = modify s.message_pool i clear },
          )
    ]

abbrev pub waits_for : ℕ → Message → Bool
waits_for pid m = m.is_used && m.receiver_pid == pid

-- `ipc_message_count`.
pub message_count : ℕ → Ipc → ℕ
message_count pid s = count_if (waits_for pid) s.message_pool

-- `ipc_create_semaphore`: the id or -1.
pub create_semaphore : ℕ → Option (List ℕ) → ℕ → Ipc → ℕ × Ipc
create_semaphore now none initial s = (invalid_semaphore_id, s)
create_semaphore now (some name) initial s =
    if is_negative initial
    then (invalid_semaphore_id, s)
    else elim (find_index (λ m. not m.in_use) s.semaphore_pool) [
      | none ↦ (invalid_semaphore_id, s)
      | some i ↦ (
        s.next_semaphore_id,
        record s {
          next_semaphore_id = add32 s.next_semaphore_id 1;
          semaphore_pool = modify s.semaphore_pool i (λ _. record {
            id = s.next_semaphore_id;
            value = initial;
            in_use = true;
            waiting = empty;
            name = take 31 name;
            creation_time = now;
          });
        },
      )
    ]

-- `ipc_find_semaphore`: the slot.
pub find_semaphore : ℕ → Ipc → Option ℕ
find_semaphore id s = find_index (λ m. m.in_use && m.id == id) s.semaphore_pool

set_value : ℕ → Semaphore → Semaphore
set_value v m = record m { value = v }

set_waiting : Queue → Semaphore → Semaphore
set_waiting q m = record m { waiting = q }

-- `process->state = ...; process->next = NULL` of a process that leaves a waiting queue.
wake : Process → Process
unfolding set_next
wake p = set_next none (record p { state = ready })

block_current : ℕ → Queue → Ipc → Ipc
unfolding set_waiting
block_current i waiting s = elim s.procs.current_process [
  | none ↦ s
  | some c ↦
      let (table, queue) =
        push_by_head (modify s.procs.process_table c (λ p. record p { state = blocked })) waiting
          c in
      record s {
        procs = record s.procs { process_table = table };
        semaphore_pool = modify s.semaphore_pool i (set_waiting queue);
      }
]

-- `ipc_semaphore_wait`: 0 when the semaphore is acquired, 1 when the process has to wait, or -1.
pub semaphore_wait : ℕ → Ipc → ℕ × Ipc
unfolding set_value block_current
semaphore_wait id s = elim (find_semaphore id s) [
  | none ↦ (minus_one, s)
  | some i ↦
      let m = get_or s.semaphore_pool i empty_semaphore in
      if not (is_negative m.value) && ltb 0 m.value
      then (
        0,
        record s { semaphore_pool = modify s.semaphore_pool i (set_value (sub32 m.value 1)) },
      )
      else (1, block_current i m.waiting s)
]

wake_first : ℕ → ℕ → Queue → Ipc → Ipc
unfolding set_waiting wake
wake_first i x queue s = record s {
  procs = record s.procs { process_table = modify s.procs.process_table x wake };
  semaphore_pool = modify s.semaphore_pool i (set_waiting queue);
}

-- `ipc_semaphore_signal`.
pub semaphore_signal : ℕ → Ipc → ℕ × Ipc
unfolding set_value wake_first
semaphore_signal id s = elim (find_semaphore id s) [
  | none ↦ (minus_one, s)
  | some i ↦
      let m = get_or s.semaphore_pool i empty_semaphore in
      elim (pop s.procs.process_table m.waiting) [
        | some (x, queue) ↦ (0, wake_first i x queue s)
        | none ↦ (
          0,
          record s { semaphore_pool = modify s.semaphore_pool i (set_value (add32 m.value 1)) },
        )
      ]
]

-- `while (sem->waiting_queue_head) ...` with fuel: the table, and the queue that is left.
wake_all : ℕ → List Process → Queue → List Process × Queue
unfolding wake
wake_all zero table queue = (table, queue)
wake_all (suc fuel) table queue = elim (pop table queue) [
  | none ↦ (table, queue)
  | some (x, left) ↦ wake_all fuel (modify table x wake) left
]

-- The slot of a semaphore that is destroyed; its queue is what the loop has left.
freed : Queue → Semaphore → Semaphore
freed queue m = record m { in_use = false; id = invalid_semaphore_id; value = 0; waiting = queue }

-- `ipc_destroy_semaphore`.
pub destroy_semaphore : ℕ → Ipc → ℕ × Ipc
unfolding wake_all freed
destroy_semaphore id s = elim (find_semaphore id s) [
  | none ↦ (minus_one, s)
  | some i ↦
      let m = get_or s.semaphore_pool i empty_semaphore in
      let (table, queue) = wake_all 8 s.procs.process_table m.waiting in
      (
        0,
        record s {
          procs = record s.procs { process_table = table };
          semaphore_pool = modify s.semaphore_pool i (freed queue);
        },
      )
]
