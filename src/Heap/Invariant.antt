-- ===== src/Heap/Invariant.antt =====
-- The invariant of kernel/heap.c: the free list is linked, and the free and the allocated blocks lie in
-- the heap and apart from each other.
use claude_os_20day_challeng.Base.{
  ℕ, ◌+◌, ◌^◌, ◌<◌, ◌≤◌, ◌≡◌, ◌≢◌, ◌⊎◌, Bool, true, false, ◌||◌, List,
}
use claude_os_20day_challeng.Heap.{Headers, Heap, header_size, heap_start}
use claude_os_20day_challeng.Heap.FreeList.{has, head_of, NoDup, Linked}

-- The first address after a block.
abbrev pub end_of : Headers → ℕ → ℕ
end_of h a = a + header_size + (h a).size

abbrev pub Apart : Headers → ℕ → ℕ → Type 0
Apart h a c = (end_of h a ≤ c) ⊎ (end_of h c ≤ a)

-- A free block, or one that was allocated and not freed.
abbrev pub block_of : List ℕ → List ℕ → ℕ → Bool
block_of free live a = has a free || has a live

pub record Inv (s : Heap) (free live : List ℕ) : Type 0 where
  pub linked : Linked s.headers 0 free
  pub starts : s.free_list_head ≡ head_of free
  pub no_dup : NoDup free
  pub live_no_dup : NoDup live
  pub exclusive : (a : ℕ) → has a free ≡ true → has a live ≡ false
  pub in_heap :
      (a : ℕ) → block_of free live a ≡ true → (heap_start ≤ a) × (end_of s.headers a ≤ s.heap_end)
  pub apart :
      (a c : ℕ)
      → block_of free live a ≡ true
      → block_of free live c ≡ true
      → a ≢ c
      → Apart s.headers a c
  pub small : s.heap_end < 2 ^ 31
