-- ===== src/Pmm.antt =====
-- The physical page allocator of kernel/pmm.c: a bitmap with one bit for each 4 KB page.
pub mod Bits
pub mod Count
pub mod Invariant
pub mod Alloc
pub mod Free
pub mod Boot
pub mod Tests
use Prim.Native.Nat.{bit_and, bit_or}
use claude_os_20day_challeng.Base.{
  ℕ, zero, suc, ◌+◌, ◌-◌, ◌*◌, ◌/◌, ◌%◌, ◌^◌, Bool, not, Option, none, some, List, get_or, modify,
  replicate, ltb, leb, ◌==◌, if◌then◌else◌, add32, sub32, u32_mod,
}

abbrev pub page_size : ℕ
page_size = 4096

-- MEMORY_END, BITMAP_SIZE and KERNEL_START of pmm.h.
abbrev pub memory_end : ℕ
memory_end = 0x2000000

abbrev pub bitmap_size : ℕ
bitmap_size = memory_end / page_size / 8

abbrev pub kernel_start : ℕ
kernel_start = 0x100000

-- PAGE_ALIGN: `~(PAGE_SIZE - 1)` as a 32-bit mask.
abbrev pub page_align : ℕ → ℕ
page_align addr = bit_and (add32 addr (page_size - 1)) (u32_mod - page_size)

-- `find_free_page` returns this when every page is in use.
abbrev pub no_page : ℕ
no_page = 0xffff_ffff

pub record Pmm : Type 0 where
  pub memory_bitmap : List ℕ
  pub total_pages : ℕ
  pub free_pages : ℕ
  pub first_free_page : ℕ

pub set_bit : List ℕ → ℕ → List ℕ
set_bit bitmap bit = modify bitmap (bit / 8) (λ b. bit_or b (2 ^ (bit % 8)))

-- `~(1 << k)` keeps the other bits of the byte.
pub clear_bit : List ℕ → ℕ → List ℕ
clear_bit bitmap bit = modify bitmap (bit / 8) (λ b. bit_and b (255 - 2 ^ (bit % 8)))

pub test_bit : List ℕ → ℕ → Bool
test_bit bitmap bit = ltb 0 (bit_and (get_or bitmap (bit / 8) 0) (2 ^ (bit % 8)))

-- `for (; n > 0; i++, n--) if (!test_bit(i)) return i;`
pub scan : List ℕ → ℕ → ℕ → Option ℕ
scan bitmap zero i = none
scan bitmap (suc n) i =
    let rest = scan bitmap n (i + 1) in if test_bit bitmap i then rest else some i

pub find_free_page : Pmm → ℕ
find_free_page p =
    elim (scan p.memory_bitmap (p.total_pages - p.first_free_page) p.first_free_page) [
      | some i ↦ i
      | none ↦ elim (scan p.memory_bitmap p.first_free_page 0) [ some i ↦ i | none ↦ no_page ]
    ]

pub mark_used : Pmm → ℕ → Pmm
mark_used p page = record p {
  memory_bitmap = set_bit p.memory_bitmap page;
  free_pages = sub32 p.free_pages 1;
}

-- `for (; n > 0; i++, n--) { set_bit(i); free_pages--; }`
pub mark_kernel : ℕ → ℕ → Pmm → Pmm
mark_kernel zero i p = p
mark_kernel (suc n) i p = mark_kernel n (i + 1) (mark_used p i)

abbrev pub kernel_end_page : ℕ
kernel_end_page = page_align (kernel_start + 0x100000) / page_size

-- `pmm_init`, less what it prints.
pub init : Pmm
init =
    let cleared = mark_kernel kernel_end_page 0 (record {
      memory_bitmap = replicate bitmap_size 0;
      total_pages = memory_end / page_size;
      free_pages = memory_end / page_size;
      first_free_page = 0;
    }) in
    record cleared { first_free_page = kernel_end_page }

take_page : Pmm → ℕ → ℕ × Pmm
take_page p page =
    let marked = mark_used p page in
    (
      (page * page_size) % u32_mod,
      if page == p.first_free_page
          then record marked { first_free_page = add32 p.first_free_page 1 }
          else marked,
    )

-- `pmm_alloc_page`: the physical address of the page, or 0.
pub alloc_page : Pmm → ℕ × Pmm
unfolding take_page
alloc_page p =
    if p.free_pages == 0
    then (0, p)
    else (let page = find_free_page p in if page == no_page then (0, p) else take_page p page)

release_page : Pmm → ℕ → Pmm
release_page p page = record p {
  memory_bitmap = clear_bit p.memory_bitmap page;
  free_pages = add32 p.free_pages 1;
  first_free_page = if ltb page p.first_free_page then page else p.first_free_page;
}

pub free_page : Pmm → ℕ → Pmm
unfolding release_page
free_page p page_addr =
    let page = page_addr / page_size in
    if leb p.total_pages page
    then p
    else (if not (test_bit p.memory_bitmap page) then p else release_page p page)

-- `pmm_get_used_pages`.
pub get_used_pages : Pmm → ℕ
get_used_pages p = sub32 p.total_pages p.free_pages
