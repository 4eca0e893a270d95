-- ===== src/Process/Invariant.antt =====
-- What kernel/process.c keeps true of its table: the pids in use are distinct.
use claude_os_20day_challeng.Base.{
  ℕ, zero, suc, ◌+◌, ◌<◌, ◌≡◌, ◌≢◌, ◌⊎◌, inl, inr, refl, ◌∙◌, ap, Option, none, some, Option-cases,
  List, [], ◌∷◌, length, length-modify, get_elem?, get_elem?-modify, modify, find_index,
  find_index-some, find_index-none, arith,
}
use claude_os_20day_challeng.Process.Table.{Process, max_processes, invalid_pid, is_free}
use claude_os_20day_challeng.Process.{free_slot, current_pid_or}

-- A used slot has a pid of its own, below the next one to be given.
pub record Inv (table : List Process) (next_pid : ℕ) : Type 0 where
  pub sized : length table ≡ max_processes
  pub unique :
      (i j : ℕ) (p q : Process)
      → get_elem? table i ≡ some p
      → get_elem? table j ≡ some q
      → p.pid ≢ invalid_pid
      → p.pid ≡ q.pid
      → i ≡ j
  pub below :
      (i : ℕ) (p : Process) → get_elem? table i ≡ some p → p.pid ≢ invalid_pid → p.pid < next_pid

-- A slot of the changed table: the one written, or one that was there.
abbrev Written : List Process → ℕ → (Process → Process) → ℕ → Process → Type 0
Written table slot f i p =
    ((slot ≡ i) × (a : Process) × (get_elem? table slot ≡ some a) × (p ≡ f a))
    ⊎ ((slot ≢ i) × (get_elem? table i ≡ some p))

-- A write that gives the slot the next pid keeps the pids apart.
pub fill-Inv :
    (table : List Process) (next_pid slot : ℕ) (f : Process → Process)
    → Inv table next_pid
    → ((p : Process) → (f p).pid ≡ next_pid)
    → Inv (modify table slot f) (next_pid + 1)
fill-Inv table next_pid slot f v new = record {
  sized = length-modify table slot f ∙ v.sized;
  unique = λ i j p q hi hj used same.
      go i j p q used same (get_elem?-modify table slot i f p hi)
        (get_elem?-modify table slot j f q hj);
  below = λ i p hi used. bound i p used (get_elem?-modify table slot i f p hi);
}
  where
    bound :
        (i : ℕ) (p : Process)
        → p.pid ≢ invalid_pid
        → Written table slot f i p
        → p.pid < next_pid + 1
    bound i p used (inl (e, a, at, is)) = omega (arith, new a, ap (λ (x : Process). x.pid) is)
    bound i p used (inr (ne, at)) = omega (arith, v.below i p at used)

    go :
        (i j : ℕ) (p q : Process)
        → p.pid ≢ invalid_pid
        → p.pid ≡ q.pid
        → Written table slot f i p
        → Written table slot f j q
        → i ≡ j
    go i j p q used same (inl (e, _, _, _)) (inl (e', _, _, _)) = omega arith
    go i j p q used same (inl (e, a, at, is)) (inr (ne, at')) = absurd (
        omega
          (arith, new a, ap (λ (x : Process). x.pid) is, v.below j q at' (λ h. used (omega arith))))
    go i j p q used same (inr (ne, at)) (inl (e, a, at', is)) =
        absurd (omega (arith, new a, ap (λ (x : Process). x.pid) is, v.below i p at used))
    go i j p q used same (inr (ne, at)) (inr (ne', at')) = v.unique i j p q at at' used same

-- A write that keeps the pid keeps the pids apart.
pub same_pid-Inv :
    (table : List Process) (next_pid slot : ℕ) (f : Process → Process)
    → Inv table next_pid
    → ((p : Process) → (f p).pid ≡ p.pid)
    → Inv (modify table slot f) next_pid
same_pid-Inv table next_pid slot f v same_pid = record {
  sized = length-modify table slot f ∙ v.sized;
  unique = λ i j p q hi hj used same.
      let (p', at, is) = before i p (get_elem?-modify table slot i f p hi) in
      let (q', at', is') = before j q (get_elem?-modify table slot j f q hj) in
      v.unique i j p' q' at at' (λ h. used (omega arith)) (omega arith);
  below = λ i p hi used.
      let (p', at, is) = before i p (get_elem?-modify table slot i f p hi) in
      omega (arith, v.below i p' at (λ h. used (omega arith)));
}
  where
    before :
        (i : ℕ) (p : Process)
        → Written table slot f i p
        → (p' : Process) × (get_elem? table i ≡ some p') × (p.pid ≡ p'.pid)
    before i p (inl (e, a, at, is)) = (a, rw (← e) at, ap (λ (x : Process). x.pid) is ∙ same_pid a)
    before i p (inr (ne, at)) = (p, at, refl)

-- The slot of `process_create`: from 1 on, and not in use.
pub free_slot-some :
    (table : List Process) (slot : ℕ)
    → free_slot table ≡ some slot
    → (p : Process) × (get_elem? table slot ≡ some p) × (p.pid ≡ invalid_pid) × (0 < slot)
unfolding free_slot
free_slot-some [] slot h = cc
free_slot-some (k ∷ ps) slot h = elim (Option-cases (find_index is_free ps)) [
  | inl e ↦ ground arith
  | inr (i, e) ↦
      let (p, at, free) = find_index-some is_free ps i e in
      let here : slot ≡ suc i = ground arith in (p, rw here at, ground arith, omega arith)
]

pub free_slot-none :
    (table : List Process) (i : ℕ) (p : Process)
    → free_slot table ≡ none
    → 0 < i
    → get_elem? table i ≡ some p
    → p.pid ≢ invalid_pid
unfolding free_slot
free_slot-none [] i p h pos at = cc
free_slot-none (k ∷ ps) zero p h pos at = absurd (omega arith)
free_slot-none (k ∷ ps) (suc i) p h pos at = elim (Option-cases (find_index is_free ps)) [
  | inl e ↦ ground (arith, find_index-none is_free ps i p e at)
  | inr (j, e) ↦ ground arith
]

pub current_pid_or-eq :
    (d : ℕ) (table : List Process) (current : Option ℕ) (i : ℕ) (p : Process)
    → current ≡ some i
    → get_elem? table i ≡ some p
    → current_pid_or d table current ≡ p.pid
unfolding current_pid_or
current_pid_or-eq d table none i p runs at = cc
current_pid_or-eq d table (some j) i p runs at =
    let same : j ≡ i = ground arith in rw (same, at, current_pid_or) refl
