-- ===== src/Process/Boot.antt =====
-- `process_init` of kernel/process.c.
use claude_os_20day_challeng.Base.{
  ℕ, zero, suc, ◌<◌, ◌≡◌, ◌≢◌, refl, Bool, false, some, [], ◌∷◌, get_elem?, replicate, arith,
}
use claude_os_20day_challeng.Process.Table.{Process, running, invalid_pid, kernel_pid, empty_slot}
use claude_os_20day_challeng.Process.{Procs, init, kernel_process}
use claude_os_20day_challeng.Process.Invariant.{Inv}
use claude_os_20day_challeng.Process.Links.Chain.{Holds}

get_elem?-replicate : (n i : ℕ) (a p : Process) → get_elem? (replicate n a) i ≡ some p → p ≡ a
get_elem?-replicate zero i a p h = cc
get_elem?-replicate (suc n) zero a p h = ground arith
get_elem?-replicate (suc n) (suc i) a p h = get_elem?-replicate n i a p h

-- In a fresh table slot 0 alone is in use.
only_kernel :
    (k : Process) (n i : ℕ) (p : Process)
    → get_elem? (k ∷ replicate n empty_slot) i ≡ some p
    → p.pid ≢ invalid_pid
    → (i ≡ 0) × (p ≡ k)
only_kernel k n zero p h used = (refl, ground arith)
only_kernel k n (suc i) p h used =
    absurd (used (ground (arith, get_elem?-replicate n i empty_slot p)))

-- The first `process_init` leaves the kernel's process running in slot 0, every other slot free, the
-- ready queue empty, and distinct pids.
pub init_starts_kernel :
    (now : ℕ) (directory heap : Bool) (s : Procs)
    → s.initialized ≡ false
    → 0 < s.next_pid
    → let s' = (init now directory heap s).0 in
      Inv s'.process_table s'.next_pid
      × (s'.current_process ≡ some 0)
      × ((k : Process) × (get_elem? s'.process_table 0 ≡ some k)
          × (k.pid ≡ kernel_pid)
          × (k.state ≡ running))
      × Holds s'.process_table s'.ready_queue []
      × ((init now directory heap s').0 ≡ s')
unfolding init kernel_process
init_starts_kernel now directory heap s fresh pos = rw fresh (
  record {
    sized = refl;
    unique = λ i j p q hi hj used same.
        let (i0, pk) = only_kernel (kernel_process now) 7 i p hi used in
        let (j0, qk) = only_kernel (kernel_process now) 7 j q hj (λ h. used (ground arith)) in
        omega arith;
    below = λ i p hi used.
        let (i0, pk) = only_kernel (kernel_process now) 7 i p hi used in ground arith;
  },
  refl,
  (kernel_process now, refl, refl, refl),
  record { chain = refl; at_end = refl; distinct = tt },
  refl,
)
