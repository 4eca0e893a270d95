-- ===== src/Heap/Defects.antt =====
-- `kfree` of kernel/heap.c on the block that was freed last.
use claude_os_20day_challeng.Base.{
  ℕ, zero, suc, ◌+◌, ◌^◌, ◌<◌, ◌≤◌, ◌≡◌, ◌≢◌, refl, sym, subst, Bool, true, false, not, ◌||◌, none,
  ltb, leb, ◌==◌, add32, sub32, arith,
}
use claude_os_20day_challeng.Heap.{
  Headers, Heap, header_size, heap_start, link_first, add_to_free_list, coalesce, kfree,
}

stays : (b size : ℕ) → b < 2 ^ 32 → size < 2 ^ 31 → (add32 b (header_size + size) == b) ≡ false
stays b size low small = ground arith

coalesce-loop :
    (fuel : ℕ) (h : Headers) (b : ℕ)
    → (b == 0) ≡ false
    → (h b).next ≡ b
    → (add32 b (header_size + (h b).size) == b) ≡ false
    → coalesce fuel b h ≡ none
unfolding coalesce
coalesce-loop zero h b some_block loop gap = refl
coalesce-loop (suc fuel) h b some_block loop gap =
    let rest = coalesce-loop fuel h b some_block loop gap in rw (loop, some_block, gap, rest) refl

first_loop :
    (h : Headers) (b : ℕ)
    → b ≢ 0
    → ((link_first b b h b).next ≡ b) × ((link_first b b h b).size ≡ (h b).size)
unfolding link_first
first_loop h b some_block = (ground arith, ground arith)

accepts :
    (b end : ℕ) (ready : Bool)
    → heap_start ≤ b
    → b < end
    → ready ≡ true
    → ((b + header_size == 0) || not ready || ltb b heap_start || leb end b) ≡ false
accepts b end ready low high is = ground arith

not_null : (b : ℕ) → heap_start ≤ b → (b == 0) ≡ false
not_null b low = ground arith

-- In an initialized heap below 2 GB, freeing the block at the head of the free list once more never
-- returns: no fuel is enough for the walk over the list.
pub kfree-double_free :
    (fuel b : ℕ) (s : Heap)
    → s.heap_initialized ≡ true
    → s.free_list_head ≡ b
    → heap_start ≤ b
    → b < s.heap_end
    → s.heap_end < 2 ^ 31
    → (s.headers b).size < 2 ^ 31
    → kfree fuel (b + header_size) s ≡ none
unfolding kfree add_to_free_list
kfree-double_free fuel b s ready head low high small size =
    let back : sub32 (b + header_size) header_size ≡ b = omega arith in
    let loop = first_loop s.headers b (λ e. absurd (omega arith)) in
    let walk = coalesce-loop fuel (link_first b b s.headers) b (not_null b low) loop.0 (
      subst (λ n. (add32 b (header_size + n) == b) ≡ false) (sym loop.1)
        (stays b (s.headers b).size (omega arith) size)) in
    rw (back, accepts b s.heap_end s.heap_initialized low high ready, head, walk) refl
