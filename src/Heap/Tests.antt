-- ===== src/Heap/Tests.antt =====
-- Examples for kernel/heap.c.
use claude_os_20day_challeng.Base.{
  ℕ, ◌≤◌, ◌≡◌, refl, true, false, none, some, List, [], ◌∷◌, ◌==◌, if◌then◌else◌, arith,
}
use claude_os_20day_challeng.Pmm
use claude_os_20day_challeng.Vmm.{zero_entry}
use claude_os_20day_challeng.Heap.{Headers, Heap, kmalloc, kfree}
use claude_os_20day_challeng.Heap.FreeList.{erase}
use claude_os_20day_challeng.Heap.Invariant.{Inv}
use claude_os_20day_challeng.Heap.Kmalloc.{kmalloc-Inv, kmalloc-full}
use claude_os_20day_challeng.Heap.Free.{kfree-Inv}
use claude_os_20day_challeng.Heap.Defects.{kfree-double_free}

-- A block that is allocated, and two that are free.
abbrev three_blocks : Headers
three_blocks a =
    if a == 0x400000
    then record { size = 0xFF0; is_free = false; next = 0; prev = 0 }
    else (if a == 0x401000
        then record { size = 0xFF0; is_free = true; next = 0x402000; prev = 0 }
        else record { size = 0xFDFF0; is_free = true; next = 0; prev = 0x401000 })

abbrev free_blocks : List ℕ
free_blocks = 0x401000 ∷ 0x402000 ∷ []

abbrev used_blocks : List ℕ
used_blocks = 0x400000 ∷ []

abbrev sample : Heap
sample = record {
  vmm = record { pmm = Pmm.init; memory = λ f i. zero_entry; current_page_directory = 0x100000 };
  headers = three_blocks;
  bytes = λ a. 0;
  heap_end = 0x500000;
  free_list_head = 0x401000;
  heap_initialized = true;
}

sample-Inv : Inv sample free_blocks used_blocks
sample-Inv = record {
  linked = (
    (λ e. absurd (omega arith)),
    refl,
    refl,
    refl,
    ((λ e. absurd (omega arith)), refl, refl, refl, tt),
  );
  starts = refl;
  no_dup = (refl, (refl, tt));
  live_no_dup = (refl, tt);
  exclusive = λ a i. ground arith;
  in_heap = λ a i. ground arith;
  apart = λ a c i j ne. ground arith;
  small = ground arith;
}

kmalloc-Inv_example :
    let (r, t) = kmalloc 0x2000 sample in
    (r ≡ 0x402010)
    × Inv t (erase 0x402000 free_blocks) (0x402000 ∷ used_blocks)
    × (0x2000 ≤ (t.headers 0x402000).size)
kmalloc-Inv_example =
    kmalloc-Inv sample free_blocks used_blocks 0x2000 0x402000 sample-Inv refl (omega arith)
      (omega arith) (omega arith) refl (λ e. absurd (omega arith))

kmalloc-full_example : kmalloc 0x7FFFF0 sample ≡ (0, sample)
kmalloc-full_example =
    kmalloc-full sample free_blocks used_blocks 0x7FFFF0 sample-Inv (omega arith) refl (omega arith)

kfree-Inv_example :
    (others : List ℕ) × (t : Heap) × ((kfree 3 0x400010 sample ≡ some t)
      × Inv t (0x400000 ∷ others) [])
kfree-Inv_example =
    kfree-Inv sample free_blocks used_blocks 0x400000 sample-Inv refl 3 refl (omega arith)

kfree-double_free_example : kfree 1000 0x401010 sample ≡ none
kfree-double_free_example =
    kfree-double_free 1000 0x401000 sample refl refl (omega arith) (omega arith) (omega arith)
      (omega arith)
