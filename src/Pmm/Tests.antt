-- ===== src/Pmm/Tests.antt =====
-- Runs of kernel/pmm.c, and its theorems at concrete states.
use claude_os_20day_challeng.Base.{
  ℕ, zero, suc, ◌<◌, ◌≡◌, ◌≢◌, refl, true, not, ◌==◌, [], ◌∷◌, get_or, each_below, if◌then◌else◌,
  ◌&&◌, ◌+◌, ◌/◌, arith,
}
use claude_os_20day_challeng.Pmm.{
  Pmm, init, mark_kernel, mark_used, set_bit, test_bit, scan, find_free_page, take_page, alloc_page,
  free_page, get_used_pages, page_size,
}
use claude_os_20day_challeng.Pmm.Count.{count_clear}
use claude_os_20day_challeng.Pmm.Invariant.{Inv}
use claude_os_20day_challeng.Pmm.Alloc.{alloc_page-Inv, alloc_page-Allocated, Allocated}
use claude_os_20day_challeng.Pmm.Free.{free_page-bits}
use claude_os_20day_challeng.Pmm.Boot.{init-Inv}

-- The first page handed out is the one just above the kernel's 2 MB.
first_alloc : (alloc_page init).0 ≡ 0x200000
unfolding init mark_kernel mark_used alloc_page take_page find_free_page scan test_bit set_bit
first_alloc = refl

init_used : get_used_pages init ≡ 512
unfolding init mark_kernel mark_used get_used_pages
init_used = refl

abbrev full : Pmm
full = record { memory_bitmap = 255 ∷ []; total_pages = 8; free_pages = 0; first_free_page = 8 }

full-bytes : (k : ℕ) → get_or (255 ∷ []) k 0 < 256
full-bytes zero = omega arith
full-bytes (suc k) = omega arith

full-Inv : Inv full
unfolding count_clear test_bit
full-Inv = record {
  bytes = full-bytes;
  sized = omega arith;
  small = omega arith;
  hint = omega arith;
  counted = refl;
}

full_table : each_below 8 (test_bit (255 ∷ [])) ≡ true
unfolding each_below test_bit
full_table = refl

init-not_empty : init.free_pages ≢ 0
init-not_empty h = omega (arith, init-Inv.2)

alloc_page-Inv_example : Inv (alloc_page init).1
alloc_page-Inv_example = alloc_page-Inv init init-Inv.0

alloc_page-Allocated_example : (page : ℕ) × Allocated init page (alloc_page init)
alloc_page-Allocated_example = alloc_page-Allocated init init-Inv.0 init-not_empty

free_page-bits_example :
    ((j : ℕ)
      → test_bit (free_page full 0x3000).memory_bitmap j
        ≡ (not (0x3000 / page_size == j) && test_bit full.memory_bitmap j))
    × ((free_page full 0x3000).free_pages
        ≡ 0 + (if test_bit full.memory_bitmap (0x3000 / page_size) then 1 else 0))
    × ((free_page full 0x3000).total_pages ≡ 8)
free_page-bits_example = free_page-bits full 0x3000 full-Inv (omega arith)
