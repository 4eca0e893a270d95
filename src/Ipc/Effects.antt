-- ===== src/Ipc/Effects.antt =====
-- What waiting for a semaphore of kernel/ipc.c, and waking, do to the processes of the table.
use claude_os_20day_challeng.Base.{
  ℕ, ◌≡◌, refl, ◌∙◌, ℕ_discrete, true, false, none, some, Option-cases, inl, inr, List, [], ◌∷◌,
  get_elem?, get_elem?-modify_self, get_elem?-modify_ne, modify, ◌==◌, if◌then◌else◌, arith,
}
use claude_os_20day_challeng.Process.Table.{Process, State, ready, blocked}
use claude_os_20day_challeng.Process.Links.{Queue, push_by_head, link, set_next}
use claude_os_20day_challeng.Process.Links.Chain.{NotIn, Holds}
use claude_os_20day_challeng.Process.Schedule.{Holds-modify}

-- Every process of the table keeps its pid, and its state changes as `f` says for its slot.
abbrev pub States : List Process → List Process → (ℕ → State → State) → Type 0
States table table' f =
    (j : ℕ) (p : Process)
    → get_elem? table j ≡ some p
    → (q : Process) × (get_elem? table' j ≡ some q) × (q.pid ≡ p.pid) × (q.state ≡ f j p.state)

abbrev pub block : Process → Process
block p = record p { state = blocked }

abbrev pub block_at : ℕ → ℕ → State → State
block_at c j st = if j == c then blocked else st

-- The slot of `c` alone is written.
pub get_elem?-modify_at :
    (table : List Process) (c : ℕ) (f : Process → Process) (j : ℕ) (p : Process)
    → get_elem? table j ≡ some p
    → get_elem? (modify table c f) j ≡ some (if j == c then f p else p)
get_elem?-modify_at table c f j p at = elim (ℕ_discrete c j) [
  | yes e ↦
      let here : (j == c) ≡ true = ground arith in
      rw (here, e) (get_elem?-modify_self table j f p at)
  | no n ↦
      let away : (j == c) ≡ false = ground arith in rw (away, get_elem?-modify_ne table c j f n) at
]

modify-States :
    (table : List Process) (i : ℕ) (f : Process → Process)
    → ((p : Process) → (f p).pid ≡ p.pid)
    → ((p : Process) → (f p).state ≡ p.state)
    → States table (modify table i f) (λ j st. st)
modify-States table i f pids states j p at = elim (ℕ_discrete i j) [
  | yes e ↦ (f p, rw e (get_elem?-modify_self table j f p at), pids p, states p)
  | no n ↦ (p, get_elem?-modify_ne table i j f n ∙ at, refl, refl)
]

-- Joining a waiting queue changes links only.
push_by_head-States :
    (table : List Process) (w : Queue) (i : ℕ)
    → States table (push_by_head table w i).0 (λ j st. st)
unfolding push_by_head link set_next
push_by_head-States table w i j p at =
    let (p1, at1, pid1, st1) =
      modify-States table i (set_next none) (λ p. refl) (λ p. refl) j p at in
    elim (Option-cases w.head) [
      | inl e ↦ rw (e, push_by_head) (p1, at1, pid1, st1)
      | inr (h, e) ↦ elim (Option-cases w.tail) [
        | inl n ↦ rw (e, n, push_by_head, link) (p1, at1, pid1, st1)
        | inr (t, n) ↦
            let (p2, at2, pid2, st2) =
              modify-States (modify table i (set_next none)) t (set_next (some i)) (λ p. refl)
                (λ p. refl) j p1 at1 in
            rw (e, n, push_by_head, link) (p2, at2, pid2 ∙ pid1, st2 ∙ st1)
      ]
    ]

-- A process that blocks and joins a waiting queue is BLOCKED, and no other state changes.
pub blocking-States :
    (table : List Process) (w : Queue) (c : ℕ)
    → States table (push_by_head (modify table c block) w c).0 (block_at c)
blocking-States table w c j p at =
    let (q, at', pid, st) =
      push_by_head-States (modify table c block) w c j _
        (get_elem?-modify_at table c block j p at) in
    elim (ℕ_discrete j c) [
      | yes e ↦
          let here : (j == c) ≡ true = ground arith in
          (q, at', pid ∙ rw here refl, st ∙ rw here refl)
      | no n ↦
          let away : (j == c) ≡ false = ground arith in
          (q, at', pid ∙ rw away refl, st ∙ rw away refl)
    ]

-- A queue that has neither the process nor the last of those that it joins stays as it is.
push_by_head-other :
    (table : List Process) (w q : Queue) (i : ℕ) (xs : List ℕ)
    → NotIn i xs
    → ((t : ℕ) → w.tail ≡ some t → NotIn t xs)
    → Holds table q xs
    → Holds (push_by_head table w i).0 q xs
unfolding push_by_head link
push_by_head-other table w q i xs out last_out holds =
    let cut = Holds-modify table q xs i (set_next none) out holds in
    elim (Option-cases w.head) [
      | inl e ↦ rw (e, push_by_head) cut
      | inr (h, e) ↦ elim (Option-cases w.tail) [
        | inl n ↦ rw (e, n, push_by_head, link) cut
        | inr (t, n) ↦
            rw (e, n, push_by_head, link)
              (Holds-modify (modify table i (set_next none)) q xs t (set_next (some i))
                (last_out t n) cut)
      ]
    ]

pub blocking-other :
    (table : List Process) (w q : Queue) (c : ℕ) (xs : List ℕ)
    → NotIn c xs
    → ((t : ℕ) → w.tail ≡ some t → NotIn t xs)
    → Holds table q xs
    → Holds (push_by_head (modify table c block) w c).0 q xs
blocking-other table w q c xs out last_out holds =
    push_by_head-other (modify table c block) w q c xs out last_out
      (Holds-modify table q xs c block out holds)

-- What waking the first of the waiting processes makes of a process: it is READY and in no queue.
abbrev pub woken : List ℕ → ℕ → Process → Process
woken [] j p = p
woken (x ∷ xs) j p = if j == x then record p { state = ready; next = none } else p
