-- ===== src/Heap/Kmalloc.antt =====
-- `kmalloc` of kernel/heap.c, with and without a block that fits.
use claude_os_20day_challeng.Base.{
  ℕ, ◌+◌, ◌^◌, ◌<◌, ◌≤◌, ◌≡◌, ◌≢◌, refl, sym, ap, subst, ◌∙◌, Bool, true, false, not, ◌||◌, List,
  ◌∷◌, length, ltb, ◌==◌, if◌then◌else◌, add32, arith,
}
use claude_os_20day_challeng.Heap.{
  Heap, find_from, heap_max, header_size, find_free_block, list_fuel, take_block, expand, align,
  alloc_aligned, kmalloc,
}
use claude_os_20day_challeng.Heap.FreeList.{
  has, erase, first_fit, find_from-first_fit, first_fit-has,
}
use claude_os_20day_challeng.Heap.Invariant.{Inv}
use claude_os_20day_challeng.Heap.Allocate.{take_block-Inv}

differs : (a b : ℕ) → a ≢ b → (a == b) ≡ false
differs a b ne = ground arith

align-le : (size : ℕ) → size + 40 < 2 ^ 32 → (size ≤ align size) × (align size + 32 < 2 ^ 32)
align-le size small = (omega arith, omega arith)

find_free_block-first_fit :
    (s : Heap) (free live : List ℕ) (size : ℕ)
    → Inv s free live
    → length free < list_fuel
    → find_free_block size s ≡ first_fit s.headers size free
find_free_block-first_fit s free live size inv enough =
    ap (find_from s.headers size list_fuel) inv.starts
    ∙ find_from-first_fit s.headers size list_fuel 0 free inv.linked enough

kmalloc-aligned :
    (s : Heap) (size : ℕ)
    → s.heap_initialized ≡ true
    → 0 < size
    → kmalloc size s ≡ alloc_aligned (align size) s
unfolding kmalloc
kmalloc-aligned s size ready some_size = rw (ready, differs size 0 (λ e. absurd (omega arith))) refl

alloc_aligned-found :
    (s : Heap) (size block : ℕ)
    → find_free_block size s ≡ block
    → block ≢ 0
    → alloc_aligned size s ≡ take_block block size s
unfolding alloc_aligned
alloc_aligned-found s size block found some_block = rw (found, differs block 0 some_block) refl

-- In an initialized heap with fewer free blocks than the fuel, for a size from 1 to 2 ^ 32 - 41 that
-- some free block holds, `kmalloc` takes the first such block of the list: it returns the address
-- after the header, the block has at least the size asked for, it leaves the free list and is
-- allocated, and the invariant is kept.
pub kmalloc-Inv :
    (s : Heap) (free live : List ℕ) (size block : ℕ)
    → Inv s free live
    → s.heap_initialized ≡ true
    → length free < list_fuel
    → 0 < size
    → size + 40 < 2 ^ 32
    → first_fit s.headers (align size) free ≡ block
    → block ≢ 0
    → let (r, t) = kmalloc size s in
      (r ≡ block + header_size)
      × Inv t (erase block free) (block ∷ live)
      × (size ≤ (t.headers block).size)
kmalloc-Inv s free live size block inv ready enough some_size small fit some_block =
    let run =
      kmalloc-aligned s size ready some_size
      ∙ alloc_aligned-found s (align size) block
          (find_free_block-first_fit s free live (align size) inv enough ∙ fit) some_block in
    let has_fit = first_fit-has s.headers (align size) free (λ e. some_block (sym fit ∙ e)) in
    let bounds = align-le size small in
    let taken =
      take_block-Inv s free live block (align size) inv
        (subst (λ b. has b free ≡ true) fit has_fit.0)
        (subst (λ b. align size ≤ (s.headers b).size) fit has_fit.1) bounds.1 in
    subst
      (λ o.
        (o.0 ≡ block + header_size)
        × Inv o.1 (erase block free) (block ∷ live)
        × (size ≤ (o.1.headers block).size))
      (sym run) (taken.0, taken.1, omega (arith, bounds.0, taken.2))

alloc_aligned-full :
    (s : Heap) (size : ℕ)
    → find_free_block size s ≡ 0
    → expand size s ≡ (false, s)
    → alloc_aligned size s ≡ (0, s)
unfolding alloc_aligned
alloc_aligned-full s size none_fits full = rw (none_fits, full) refl

past : (a b : ℕ) → a < b → ltb a b ≡ true
past a b lt = ground arith

expand-full : (s : Heap) (size : ℕ) → heap_max < add32 s.heap_end size → expand size s ≡ (false, s)
unfolding expand
expand-full s size full = rw (past heap_max (add32 s.heap_end size) full) refl

guarded : {A : Type 0} (t : Bool) (a b : A) → b ≡ a → (if t then a else b) ≡ a
guarded true a b e = refl
guarded false a b e = e

-- With fewer free blocks than the fuel, none of which holds the size, and with the heap at its limit,
-- `kmalloc` returns NULL and changes nothing.
pub kmalloc-full :
    (s : Heap) (free live : List ℕ) (size : ℕ)
    → Inv s free live
    → length free < list_fuel
    → first_fit s.headers (align size) free ≡ 0
    → heap_max < add32 s.heap_end (align size)
    → kmalloc size s ≡ (0, s)
unfolding kmalloc
kmalloc-full s free live size inv enough none_fits full =
    let run =
      alloc_aligned-full s (align size)
        (find_free_block-first_fit s free live (align size) inv enough ∙ none_fits)
        (expand-full s (align size) full) in
    guarded (not s.heap_initialized || size == 0) (0, s) (alloc_aligned (align size) s) run
