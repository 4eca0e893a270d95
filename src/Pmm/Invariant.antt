-- ===== src/Pmm/Invariant.antt =====
-- What kernel/pmm.c keeps true of its bitmap and counters.
use claude_os_20day_challeng.Base.{
  ℕ, suc, ◌-◌, ◌*◌, ◌/◌, ◌^◌, ◌<◌, ◌≤◌, ◌≡◌, ◌≢◌, ◌⊎◌, refl, true, false, ◌||◌, List, length,
  length-modify, ltb, ◌==◌, Bool-cases, Option-cases, inl, inr, arith,
}
use claude_os_20day_challeng.Pmm.{Pmm, set_bit, test_bit, scan, find_free_page, mark_used, no_page}
use claude_os_20day_challeng.Pmm.Bits.{Bytes, set_bit-Bytes, test-set_bit}
use claude_os_20day_challeng.Pmm.Count.{
  count_clear, count_clear-le, count_clear-pos, count_clear-set_bit, scan-some, scan-none,
  count_clear_of_all_set,
}

pub record Inv (p : Pmm) : Type 0 where
  pub bytes : Bytes p.memory_bitmap
  pub sized : p.total_pages ≤ 8 * length p.memory_bitmap
  pub small : p.total_pages ≤ 2 ^ 20
  pub hint : p.first_free_page ≤ p.total_pages
  pub counted : p.free_pages ≡ count_clear p.memory_bitmap p.total_pages

-- The byte of a page below the total lies in the bitmap.
pub in_bitmap : (p : Pmm) (i : ℕ) → Inv p → i < p.total_pages → i / 8 < length p.memory_bitmap
in_bitmap p i v h = omega (arith, v.sized)

-- What the search returns: a free page, or the mark that there is none.
abbrev pub Finds : Pmm → ℕ → Type 0
Finds p r =
    ((r < p.total_pages) × (test_bit p.memory_bitmap r ≡ false))
    ⊎ ((r ≡ no_page) × ((j : ℕ) → j < p.total_pages → test_bit p.memory_bitmap j ≡ true))

pub find_free_page-Finds : (p : Pmm) → Inv p → Finds p (find_free_page p)
unfolding find_free_page
find_free_page-Finds p v =
    elim (Option-cases (scan bitmap (p.total_pages - p.first_free_page) p.first_free_page)) [
      | inr (i, e) ↦ rw (e, find_free_page) (inl (ground (arith, v.hint, scan-some bitmap _ _ i e)))
      | inl e ↦ elim (Option-cases (scan bitmap p.first_free_page 0)) [
        | inr (i, e') ↦
            rw (e, e', find_free_page) (inl (ground (arith, v.hint, scan-some bitmap _ _ i e')))
        | inl e' ↦
            rw (e, e', find_free_page)
              (inr (
                refl,
                λ j lt. elim (Bool-cases (ltb j p.first_free_page)) [
                  | inl b ↦ ground (arith, scan-none bitmap _ _ j e')
                  | inr a ↦ ground (arith, v.hint, scan-none bitmap _ _ j e)
                ],
              ))
      ]
    ]
  where
    bitmap : List ℕ
    bitmap = p.memory_bitmap

-- Where the counter shows a free page, the search finds one.
pub find_free_page-free :
    (p : Pmm)
    → Inv p
    → p.free_pages ≢ 0
    → (find_free_page p < p.total_pages) × (test_bit p.memory_bitmap (find_free_page p) ≡ false)
find_free_page-free p v h = elim (find_free_page-Finds p v) [
  | inl found ↦ found
  | inr (e, full) ↦
      absurd
        (h (omega (arith, v.counted, count_clear_of_all_set p.memory_bitmap p.total_pages full)))
]

module _ (p : Pmm) (v : Inv p) (page : ℕ) (lt : page < p.total_pages) where
  -- Taking a free page moves one page from the free to the used ones.
  pub mark_used-Inv : test_bit p.memory_bitmap page ≡ false → Inv (mark_used p page)
  unfolding mark_used
  mark_used-Inv free = record {
    bytes = set_bit-Bytes p.memory_bitmap v.bytes page (in_bitmap p page v lt);
    sized = unfold set_bit in rw (length-modify p.memory_bitmap (page / 8)) v.sized;
    small = v.small;
    hint = v.hint;
    counted = omega (
      arith,
      v.counted,
      v.small,
      count_clear-le p.memory_bitmap p.total_pages,
      count_clear-set_bit p.memory_bitmap v.bytes page (in_bitmap p page v lt) p.total_pages lt
          free,
    );
  }

  pub test-mark_used :
      (j : ℕ)
      → test_bit (mark_used p page).memory_bitmap j ≡ (page == j || test_bit p.memory_bitmap j)
  unfolding mark_used
  test-mark_used j = test-set_bit p.memory_bitmap v.bytes page (in_bitmap p page v lt) j

  pub mark_used-total_pages : (mark_used p page).total_pages ≡ p.total_pages
  unfolding mark_used
  mark_used-total_pages = refl

  pub mark_used-free_pages :
      test_bit p.memory_bitmap page ≡ false → suc (mark_used p page).free_pages ≡ p.free_pages
  unfolding mark_used
  mark_used-free_pages free = omega (
    arith,
    v.counted,
    v.small,
    count_clear-le p.memory_bitmap p.total_pages,
    count_clear-pos p.memory_bitmap p.total_pages page lt free,
  )
