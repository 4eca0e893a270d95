-- ===== src/Process/Table.antt =====
-- `process_t` and its table, of kernel/process.h.
use claude_os_20day_challeng.Base.{
  ℕ, ◌≡◌, Bool, Option, none, List, [], length, leb, ◌==◌, minus_one, arith,
}

pub data State : Type 0 where
  ready running blocked terminated created : State

-- The values of `process_state_t`.
abbrev pub state_code : State → ℕ
state_code ready = 0
state_code running = 1
state_code blocked = 2
state_code terminated = 3
state_code created = 4

pub state_code-injective : (a b : State) → state_code a ≡ state_code b → a ≡ b
state_code-injective ready b h = ground arith
state_code-injective running b h = ground arith
state_code-injective blocked b h = ground arith
state_code-injective terminated b h = ground arith
state_code-injective created b h = ground arith

-- `name` holds the bytes before the NUL. `next` is a slot; `stack` is an address, 0 for NULL.
pub record Process : Type 0 where
  pub pid : ℕ
  pub parent_pid : ℕ
  pub state : State
  pub esp : ℕ
  pub ebp : ℕ
  pub eip : ℕ
  pub eflags : ℕ
  pub stack : ℕ
  pub stack_size : ℕ
  pub next : Option ℕ
  pub name : List ℕ
  pub creation_time : ℕ
  pub cpu_time : ℕ
  pub exit_code : ℕ
  pub memory_usage : ℕ

abbrev pub max_processes : ℕ
max_processes = 8

abbrev pub invalid_pid : ℕ
invalid_pid = minus_one

abbrev pub kernel_pid : ℕ
kernel_pid = 0

abbrev pub default_eflags : ℕ
default_eflags = 0x202

abbrev pub is_free : Process → Bool
is_free p = p.pid == invalid_pid

abbrev pub has_pid : ℕ → Process → Bool
has_pid pid p = p.pid == pid

abbrev pub in_state : State → Process → Bool
in_state st p = state_code p.state == state_code st

-- A slot as `process_init` leaves it.
abbrev pub empty_slot : Process
empty_slot = record {
  pid = invalid_pid;
  parent_pid = invalid_pid;
  state = terminated;
  esp = 0;
  ebp = 0;
  eip = 0;
  eflags = 0;
  stack = 0;
  stack_size = 0;
  next = none;
  name = [];
  creation_time = 0;
  cpu_time = 0;
  exit_code = 0;
  memory_usage = 0;
}

-- `strcpy_local` writes the NUL at the name's length, and `name` has 32 bytes.
abbrev pub overruns : List ℕ → Bool
overruns name = leb 32 (length name)
