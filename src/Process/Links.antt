-- ===== src/Process/Links.antt =====
-- Queues of processes, linked through the `next` field of the table's slots: the ready queue of
-- kernel/process.c and the waiting queues of kernel/ipc.c.
pub mod Chain
use claude_os_20day_challeng.Base.{
  ℕ, zero, suc, ◌+◌, ◌≡◌, Option, none, some, List, [], ◌∷◌, get_elem?, modify,
}
use claude_os_20day_challeng.Process.Table.{Process}

pub record Queue : Type 0 where
  pub head : Option ℕ
  pub tail : Option ℕ

abbrev pub empty : Queue
empty = record { head = none; tail = none }

unfoldable pub set_next : Option ℕ → Process → Process
set_next n p = record p { next = n }

-- `process->next = NULL; if (tail) tail->next = process; else head = process; tail = process;`
unfoldable pub push_by_tail : List Process → Queue → ℕ → List Process × Queue
unfolding set_next
push_by_tail table q i =
    let cut = modify table i (set_next none) in
    elim q.tail [
      | none ↦ (cut, record { head = some i; tail = some i })
      | some t ↦ (modify cut t (set_next (some i)), record { head = q.head; tail = some i })
    ]

unfoldable pub link : List Process → Queue → ℕ → List Process
unfolding set_next
link table q i = elim q.tail [ none ↦ table | some t ↦ modify table t (set_next (some i)) ]

-- `ipc_add_to_waiting_queue`: the same, but for the test, which is of the head.
unfoldable pub push_by_head : List Process → Queue → ℕ → List Process × Queue
unfolding set_next link
push_by_head table q i =
    let cut = modify table i (set_next none) in
    elim q.head [
      | none ↦ (cut, record { head = some i; tail = some i })
      | some h ↦ (link cut q i, record { head = some h; tail = some i })
    ]

-- The queue behind its head, where the head's `next` is `n`.
rest : Option ℕ → Option ℕ → Queue
rest none t = record { head = none; tail = none }
rest (some n) t = record { head = some n; tail = t }

-- The first process of the queue, and the queue that is left.
unfoldable pub pop : List Process → Queue → Option (ℕ × Queue)
unfolding rest
pop table q = elim q.head [
  | none ↦ none
  | some i ↦ elim (get_elem? table i) [ none ↦ none | some p ↦ some (i, rest p.next q.tail) ]
]
