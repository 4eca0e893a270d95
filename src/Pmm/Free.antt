-- ===== src/Pmm/Free.antt =====
-- `pmm_free_page` of kernel/pmm.c.
use claude_os_20day_challeng.Base.{
  ℕ, ◌+◌, ◌/◌, ◌<◌, ◌≤◌, ◌≡◌, ◌≢◌, true, false, not, ◌&&◌, length-modify, leb, ◌==◌, if◌then◌else◌,
  Bool-cases, inl, inr, arith,
}
use claude_os_20day_challeng.Pmm.{
  Pmm, clear_bit, test_bit, release_page, alloc_page, free_page, page_size,
}
use claude_os_20day_challeng.Pmm.Bits.{clear_bit-Bytes, test-clear_bit}
use claude_os_20day_challeng.Pmm.Count.{count_clear-le, count_clear-clear_bit}
use claude_os_20day_challeng.Pmm.Invariant.{Inv, in_bitmap}
use claude_os_20day_challeng.Pmm.Alloc.{alloc_page-Inv, alloc_page-Allocated}

module _ (p : Pmm) (page : ℕ) (v : Inv p) (lt : page < p.total_pages)
    (used : test_bit p.memory_bitmap page ≡ true) where
  release_page-Inv : Inv (release_page p page)
  unfolding release_page
  release_page-Inv = record {
    bytes = clear_bit-Bytes p.memory_bitmap v.bytes page (in_bitmap p page v lt);
    sized = unfold clear_bit in rw (length-modify p.memory_bitmap (page / 8)) v.sized;
    small = v.small;
    hint = ground (arith, v.hint);
    counted = omega (
      arith,
      v.counted,
      v.small,
      count_clear-le (clear_bit p.memory_bitmap page) p.total_pages,
      count_clear-clear_bit p.memory_bitmap v.bytes page (in_bitmap p page v lt) p.total_pages lt
          used,
    );
  }

  release_page-free_pages : (release_page p page).free_pages ≡ p.free_pages + 1
  unfolding release_page
  release_page-free_pages = omega (
    arith,
    v.counted,
    v.small,
    count_clear-le (clear_bit p.memory_bitmap page) p.total_pages,
    count_clear-clear_bit p.memory_bitmap v.bytes page (in_bitmap p page v lt) p.total_pages lt
        used,
  )

-- `pmm_free_page` keeps the invariant at every address, also at one that is out of range or that is
-- not allocated.
pub free_page-Inv : (p : Pmm) (addr : ℕ) → Inv p → Inv (free_page p addr)
unfolding free_page
free_page-Inv p addr v = elim (Bool-cases (leb p.total_pages (addr / page_size))) [
  | inl t ↦ rw t v
  | inr f ↦ elim (Bool-cases (test_bit p.memory_bitmap (addr / page_size))) [
    | inl used ↦ rw (f, used) (release_page-Inv p (addr / page_size) v (ground arith) used)
    | inr free ↦ rw (f, free) v
  ]
]

-- Freeing an address of memory makes its page free, leaves every other page as it was, and adds one
-- to the counter if the page was in use, and nothing if it was free already.
pub free_page-bits :
    (p : Pmm) (addr : ℕ)
    → Inv p
    → addr / page_size < p.total_pages
    → ((j : ℕ)
        → test_bit (free_page p addr).memory_bitmap j
          ≡ (not (addr / page_size == j) && test_bit p.memory_bitmap j))
      × ((free_page p addr).free_pages
          ≡ p.free_pages + (if test_bit p.memory_bitmap (addr / page_size) then 1 else 0))
      × ((free_page p addr).total_pages ≡ p.total_pages)
unfolding free_page
free_page-bits p addr v lt =
    let page = addr / page_size in
    let inside = in_bitmap p page v lt in
    elim (Bool-cases (test_bit p.memory_bitmap page)) [
      | inl used ↦ (
        λ j.
            unfold release_page in
            ground (arith, used, lt, test-clear_bit p.memory_bitmap v.bytes page inside j),
        ground (arith, used, lt, release_page-free_pages p page v lt used),
        unfold release_page in ground (arith, used, lt),
      )
      | inr free ↦ (
        λ j. elim (Bool-cases (page == j)) [
          | inl e ↦
              let same : page ≡ j = ground arith in
              let clear : test_bit p.memory_bitmap j ≡ false = rw (← same) free in
              ground (arith, free, clear)
          | inr ne ↦ ground (arith, free, ne)
        ],
        ground (arith, free, lt),
        ground (arith, free, lt),
      )
    ]

-- An address past the end of memory is ignored.
pub free_page-out_of_range :
    (p : Pmm) (addr : ℕ) → p.total_pages ≤ addr / page_size → free_page p addr ≡ p
unfolding free_page
free_page-out_of_range p addr h = ground arith

-- Freeing what `pmm_alloc_page` has just returned undoes the allocation: every bit of the bitmap and
-- the counter of free pages are as they were.
pub free_page-alloc_page :
    (p : Pmm)
    → Inv p
    → p.free_pages ≢ 0
    → ((j : ℕ)
        → test_bit (free_page (alloc_page p).1 (alloc_page p).0).memory_bitmap j
          ≡ test_bit p.memory_bitmap j)
      × ((free_page (alloc_page p).1 (alloc_page p).0).free_pages ≡ p.free_pages)
free_page-alloc_page p v h =
    let (page, a) = alloc_page-Allocated p v h in
    let index : (alloc_page p).0 / page_size ≡ page = omega (arith, a.address) in
    let b =
      free_page-bits (alloc_page p).1 (alloc_page p).0 (alloc_page-Inv p v)
        (omega (arith, a.in_range, a.total)) in
    (
      λ j. elim (Bool-cases (page == j)) [
        | inl e ↦
            let same : page ≡ j = ground arith in
            let clear : test_bit p.memory_bitmap j ≡ false = rw (← same) a.was_free in
            ground (arith, index, e, clear, b.0 j, a.marks j)
        | inr ne ↦ ground (arith, index, ne, b.0 j, a.marks j)
      ],
      rw b.1 (ground (arith, index, a.marks ((alloc_page p).0 / page_size), a.fewer)),
    )
