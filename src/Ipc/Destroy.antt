-- ===== src/Ipc/Destroy.antt =====
-- `ipc_destroy_semaphore` of kernel/ipc.c wakes every process that waits.
use claude_os_20day_challeng.Base.{
  ℕ, zero, suc, ◌≤◌, ◌≡◌, refl, sym, subst, false, none, some, List, [], ◌∷◌, ◌++◌, length,
  get_elem?, get_elem?-modify_self, get_elem?-modify_ne, get_or-of_get_elem?, modify, ℕ_discrete,
  arith,
}
use mathlib.Core.List.{append-nil}
use claude_os_20day_challeng.Ipc.Semaphores.{Sem}
use claude_os_20day_challeng.Process.Table.{Process, ready}
use claude_os_20day_challeng.Process.Links.{Queue, set_next}
use claude_os_20day_challeng.Process.Links.Chain.{Holds, pop-Holds, pop-empty}
use claude_os_20day_challeng.Process.Schedule.{Holds-modify}
use claude_os_20day_challeng.Ipc.{
  Ipc, Semaphore, empty_semaphore, destroy_semaphore, wake, wake_all, freed, invalid_semaphore_id,
}

-- The slots of these processes are READY and in no queue.
abbrev pub AllReady : List Process → List ℕ → Type 0
AllReady table [] = Unit {0}
AllReady table (x ∷ xs) =
    ((p : Process) × (get_elem? table x ≡ some p) × (p.state ≡ ready) × (p.next ≡ none))
    × AllReady table xs

AllReady-wake :
    (table : List Process) (x : ℕ) (xs : List ℕ)
    → AllReady table xs
    → AllReady (modify table x wake) xs
unfolding wake set_next
AllReady-wake table x [] h = tt
AllReady-wake table x (y ∷ ys) ((p, at, state, next), rest) = (
  elim (ℕ_discrete x y) [
    | yes e ↦ (wake p, rw (← e) (get_elem?-modify_self table x wake p (rw e at)), refl, refl)
    | no n ↦ (p, rw (get_elem?-modify_ne table x y wake n) at, state, next)
  ],
  AllReady-wake table x ys rest,
)

AllReady-middle :
    (table : List Process) (xs : List ℕ) (x : ℕ) (ws : List ℕ)
    → AllReady table (xs ++ x ∷ ws)
    → AllReady table (x ∷ xs ++ ws)
AllReady-middle table [] x ws h = h
AllReady-middle table (y ∷ ys) x ws (hy, h) =
    let r = AllReady-middle table ys x ws h in (r.0, (hy, r.1))

wake_all-AllReady :
    (fuel : ℕ) (table : List Process) (q : Queue) (ws xs : List ℕ)
    → Holds table q xs
    → length xs ≤ fuel
    → AllReady table ws
    → AllReady (wake_all fuel table q).0 (xs ++ ws)
      × Holds (wake_all fuel table q).0 (wake_all fuel table q).1 []
unfolding wake_all
wake_all-AllReady zero table q ws [] h fuel done = (done, h)
wake_all-AllReady (suc n) table q ws [] h fuel done = rw (wake_all, pop-empty table q h) (done, h)
wake_all-AllReady zero table q ws (x ∷ xs) h fuel done = absurd (omega arith)
wake_all-AllReady (suc n) table q ws (x ∷ xs) h fuel done =
    let (q', e, rest) = pop-Holds table q x xs h in
    let p = h.chain.1 in
    let now : AllReady (modify table x wake) (x ∷ ws) = (
      (
        wake p,
        get_elem?-modify_self table x wake p h.chain.2,
        unfold wake in refl,
        unfold wake set_next in refl,
      ),
      AllReady-wake table x ws done,
    ) in
    let (woken, left) =
      wake_all-AllReady n (modify table x wake) q' (x ∷ ws) xs
        (Holds-modify table q' xs x wake h.distinct.0 rest) (omega arith) now in
    let step : wake_all (suc n) table q ≡ wake_all n (modify table x wake) q' = rw (wake_all, e) in
    subst (λ r. AllReady r.0 (x ∷ xs ++ ws) × Holds r.0 r.1 []) (sym step)
      (AllReady-middle _ xs x ws woken, left)

-- `ipc_destroy_semaphore` makes every process that waits for the semaphore READY, and frees the slot
-- with an empty queue. A table of eight processes has at most eight that wait.
pub destroy_semaphore-AllReady :
    (s : Ipc) (i id v : ℕ) (xs : List ℕ)
    → Sem s i id v xs
    → length xs ≤ 8
    → let (r, s') = destroy_semaphore id s in
      (r ≡ 0)
      × AllReady s'.procs.process_table xs
      × ((m : Semaphore) × (get_elem? s'.semaphore_pool i ≡ some m)
          × (m.in_use ≡ false)
          × (m.id ≡ invalid_semaphore_id)
          × Holds s'.procs.process_table m.waiting [])
unfolding destroy_semaphore
destroy_semaphore-AllReady s i id v xs h few =
    let slot = get_or-of_get_elem? s.semaphore_pool i h.slot empty_semaphore h.at in
    let (woken, left) =
      wake_all-AllReady 8 s.procs.process_table h.slot.waiting [] xs h.queue few tt in
    rw (destroy_semaphore, h.found, slot)
      (
        refl,
        rw append-nil at woken,
        (
          freed (wake_all 8 s.procs.process_table h.slot.waiting).1 h.slot,
          get_elem?-modify_self s.semaphore_pool i _ h.slot h.at,
          refl,
          refl,
          left,
        ),
      )
