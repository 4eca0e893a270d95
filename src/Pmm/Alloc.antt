-- ===== src/Pmm/Alloc.antt =====
-- `pmm_init`, `pmm_alloc_page` and `pmm_free_page` of kernel/pmm.c.
use claude_os_20day_challeng.Base.{
  ℕ, suc, ◌*◌, ◌<◌, ◌≡◌, ◌≢◌, true, false, ◌||◌, ◌==◌, Bool-cases, inl, inr, arith,
}
use claude_os_20day_challeng.Pmm.{
  Pmm, test_bit, find_free_page, mark_used, take_page, alloc_page, page_size,
}
use claude_os_20day_challeng.Pmm.Count.{count_clear-le}
use claude_os_20day_challeng.Pmm.Invariant.{Inv, find_free_page-free, mark_used-Inv, test-mark_used}

-- Where the counter is not zero, the page that the search finds is taken.
alloc_page-takes :
    (p : Pmm) → Inv p → p.free_pages ≢ 0 → alloc_page p ≡ take_page p (find_free_page p)
unfolding alloc_page
alloc_page-takes p v h = ground (arith, find_free_page-free p v h, v.small)

alloc_page-empty : (p : Pmm) → p.free_pages ≡ 0 → alloc_page p ≡ (0, p)
unfolding alloc_page
alloc_page-empty p h = ground arith

take_page-Inv :
    (p : Pmm) (page : ℕ)
    → Inv p
    → page < p.total_pages
    → test_bit p.memory_bitmap page ≡ false
    → Inv (take_page p page).1
unfolding take_page mark_used
take_page-Inv p page v lt free =
    let m = mark_used-Inv p v page lt free in
    elim (Bool-cases (page == p.first_free_page)) [
      | inl t ↦ rw t (record {
        bytes = m.bytes;
        sized = m.sized;
        small = v.small;
        hint = ground (arith, v.small);
        counted = m.counted;
      })
      | inr f ↦ rw f m
    ]

-- `pmm_alloc_page` keeps the invariant, whether it finds a page or not.
pub alloc_page-Inv : (p : Pmm) → Inv p → Inv (alloc_page p).1
alloc_page-Inv p v = elim (Bool-cases (p.free_pages == 0)) [
  | inl t ↦ rw (alloc_page-empty p (ground arith)) v
  | inr f ↦
      let h : p.free_pages ≢ 0 = ground arith in
      let found = find_free_page-free p v h in
      rw (alloc_page-takes p v h) (take_page-Inv p (find_free_page p) v found.0 found.1)
]

-- What a successful allocation of `page` from `p` returns and changes.
pub record Allocated (p : Pmm) (page : ℕ) (r : ℕ × Pmm) : Type 0 where
  pub address : r.0 ≡ page * page_size
  pub in_range : page < p.total_pages
  pub was_free : test_bit p.memory_bitmap page ≡ false
  pub marks : (j : ℕ) → test_bit r.1.memory_bitmap j ≡ (page == j || test_bit p.memory_bitmap j)
  pub fewer : suc r.1.free_pages ≡ p.free_pages
  pub total : r.1.total_pages ≡ p.total_pages

take_page-Allocated :
    (p : Pmm) (page : ℕ)
    → Inv p
    → p.free_pages ≢ 0
    → page < p.total_pages
    → test_bit p.memory_bitmap page ≡ false
    → Allocated p page (take_page p page)
unfolding take_page
take_page-Allocated p page v h lt free = record {
  address = omega (arith, v.small);
  in_range = lt;
  was_free = free;
  marks = λ j. ground (arith, test-mark_used p v page lt j);
  fewer =
      unfold mark_used in
      ground (arith, v.small, v.counted, count_clear-le p.memory_bitmap p.total_pages);
  total = unfold mark_used in ground arith;
}

-- While the counter is not zero `pmm_alloc_page` succeeds: it returns the address of a page that was
-- free, marks that page and no other, and takes one off the counter.
pub alloc_page-Allocated :
    (p : Pmm) → Inv p → p.free_pages ≢ 0 → (page : ℕ) × Allocated p page (alloc_page p)
alloc_page-Allocated p v h =
    let found = find_free_page-free p v h in
    (
      find_free_page p,
      rw (alloc_page-takes p v h) (take_page-Allocated p (find_free_page p) v h found.0 found.1),
    )

-- The counter is zero exactly when every page is in use, and then the allocation returns 0 and
-- changes nothing.
pub alloc_page-full :
    (p : Pmm)
    → Inv p
    → ((j : ℕ) → j < p.total_pages → test_bit p.memory_bitmap j ≡ true)
    → alloc_page p ≡ (0, p)
alloc_page-full p v all = alloc_page-empty p (elim (Bool-cases (p.free_pages == 0)) [
  | inl t ↦ ground arith
  | inr f ↦
      let found = find_free_page-free p v (ground arith) in
      ground (arith, found.0, found.1, all (find_free_page p) found.0)
])
