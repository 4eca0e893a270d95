-- ===== src/Heap/Free.antt =====
-- `kfree` of kernel/heap.c on an allocated block.
use claude_os_20day_challeng.Base.{
  ℕ, ◌+◌, ◌<◌, ◌≤◌, ◌≡◌, refl, sym, ap, subst, Bool, true, false, not, ◌||◌, some, List, ◌∷◌,
  length, ltb, leb, ◌==◌, sub32, Bool-cases, inl, inr, arith,
}
use claude_os_20day_challeng.Heap.{
  Headers, Heap, header_size, heap_start, link_first, add_to_free_list, coalesce, kfree,
}
use claude_os_20day_challeng.Heap.FreeList.{has, erase, Linked, erase-has, erase-NoDup}
use claude_os_20day_challeng.Heap.Invariant.{Inv, end_of, block_of}
use claude_os_20day_challeng.Heap.Release.{Spaced, link_first-Linked, link_first-size}
use claude_os_20day_challeng.Heap.Coalesce.{Merged, coalesce-Merged}

passes :
    (b end size : ℕ) (ready : Bool)
    → heap_start ≤ b
    → b + header_size + size ≤ end
    → ready ≡ true
    → ((b + header_size == 0) || not ready || ltb b heap_start || leb end b) ≡ false
passes b end size ready low high is = ground arith

block_before :
    (a b : ℕ) (free live left : Bool)
    → ((a == b || free) || left) ≡ true
    → ((left ≡ true) → live ≡ true)
    → ((a ≡ b) → live ≡ true)
    → (free || live) ≡ true
block_before a b true live left i was here = refl
block_before a b false live true i was here = was refl
block_before a b false live false i was here = here (ground arith)

freed_apart :
    (a b : ℕ) (free live left : Bool)
    → (a == b || free) ≡ true
    → ((left ≡ true) → live ≡ true)
    → ((free ≡ true) → live ≡ false)
    → ((a ≡ b) → left ≡ false)
    → left ≡ false
freed_apart a b free live false i was ex own = refl
freed_apart a b true live true i was ex own = absurd (ground (arith, was refl, ex refl))
freed_apart a b false live true i was ex own = own (ground arith)

module _ (s : Heap) (free live : List ℕ) (b : ℕ) (inv : Inv s free live)
    (here : has b live ≡ true) where
  abbrev linked_first : Headers
  linked_first = link_first b s.free_list_head s.headers

  abbrev freed : Headers → Heap
  freed h = record s { headers = h; free_list_head = b }

  out_of_free : has b free ≡ false
  out_of_free = elim (Bool-cases (has b free)) [
    | inl t ↦ absurd (ground (arith, inv.exclusive b t, here))
    | inr f ↦ f
  ]

  own : (heap_start ≤ b) × (end_of s.headers b ≤ s.heap_end)
  own = inv.in_heap b (rw (here) (ground arith))

  kfree-coalesce :
      (fuel : ℕ) (h : Headers)
      → s.heap_initialized ≡ true
      → coalesce fuel b linked_first ≡ some h
      → kfree fuel (b + header_size) s ≡ some (freed h)
  unfolding kfree add_to_free_list
  kfree-coalesce fuel h ready e =
      let back : sub32 (b + header_size) header_size ≡ b = omega (arith, own.0, own.1, inv.small) in
      let inside : ((b + header_size == 0)
            || not s.heap_initialized
            || ltb b heap_start
            || leb s.heap_end b)
          ≡ false =
        passes b s.heap_end (s.headers b).size s.heap_initialized own.0 own.1 ready in
      rw (back, inside, e) (ap (λ c. some (record s { headers = h; free_list_head = c })) back)

  still_block :
      (a : ℕ) → (has a (b ∷ free) || has a (erase b live)) ≡ true → block_of free live a ≡ true
  still_block a i =
      block_before a b (has a free) (has a live) (has a (erase b live)) i (erase-has a b live)
        (λ e. subst (λ c. has c live ≡ true) (sym e) here)

  first_Spaced : Spaced linked_first s.heap_end (λ a. has a (b ∷ free) || has a (erase b live))
  first_Spaced = record {
    in_heap = λ a i.
        let old = inv.in_heap a (still_block a i) in
        (old.0, omega (arith, old.1, link_first-size s.headers b s.free_list_head a));
    apart = λ a c i j ne.
        let same = link_first-size s.headers b s.free_list_head a in
        let same' = link_first-size s.headers b s.free_list_head c in
        elim (inv.apart a c (still_block a i) (still_block c j) ne) [
          | inl before ↦ inl (omega arith)
          | inr behind ↦ inr (omega arith)
        ];
  }

  no_longer : (a : ℕ) → has a (b ∷ free) ≡ true → has a (erase b live) ≡ false
  no_longer a i =
      freed_apart a b (has a free) (has a live) (has a (erase b live)) i (erase-has a b live)
        (inv.exclusive a)
        (λ e.
          subst (λ c. has c (erase b live) ≡ false) (sym e) (erase-NoDup b live inv.live_no_dup).1)

  first_Linked : Linked linked_first 0 (b ∷ free)
  first_Linked =
      subst (λ c. Linked (link_first b c s.headers) 0 (b ∷ free)) (sym inv.starts)
        (link_first-Linked s.headers b free inv.linked inv.no_dup
          (λ e. absurd (omega (arith, own.0))) out_of_free)

  walk :
      (fuel : ℕ)
      → length free < fuel
      → Merged linked_first s.heap_end 0 b free
          (λ a. has a (erase b live))
          (coalesce fuel b linked_first)
  walk fuel enough =
      coalesce-Merged fuel linked_first s.heap_end 0 b free (λ a. has a (erase b live)) inv.small
        enough first_Linked (out_of_free, inv.no_dup) first_Spaced no_longer

  -- In an initialized heap, freeing an allocated block returns when the fuel is more than the free
  -- blocks: the block leads the free list then, it is allocated no more, and the invariant is kept.
  pub kfree-Inv :
      (fuel : ℕ)
      → s.heap_initialized ≡ true
      → length free < fuel
      → (others : List ℕ) × (t : Heap) × ((kfree fuel (b + header_size) s ≡ some t)
          × Inv t (b ∷ others) (erase b live))
  kfree-Inv fuel ready enough =
      let w = walk fuel enough in
      (
        w.list,
        freed w.headers,
        (
          kfree-coalesce fuel w.headers ready w.returns,
          record {
            linked = w.linked;
            starts = refl;
            no_dup = w.no_dup;
            live_no_dup = (erase-NoDup b live inv.live_no_dup).0;
            exclusive = λ a i. no_longer a (w.sub_list a i);
            in_heap = w.spaced.in_heap;
            apart = w.spaced.apart;
            small = inv.small;
          },
        ),
      )
