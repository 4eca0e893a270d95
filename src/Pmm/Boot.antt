-- ===== src/Pmm/Boot.antt =====
-- `pmm_init` of kernel/pmm.c: the state in which the allocator starts.
use Prim.Native.Nat.{bit_and}
use claude_os_20day_challeng.Base.{
  each_below, each_below-lt, ℕ, zero, suc, ◌+◌, ◌*◌, ◌/◌, ◌%◌, ◌^◌, ◌<◌, ◌≤◌, ◌≡◌, refl, true,
  false, ◌&&◌, ◌||◌, length-replicate, replicate, ltb, leb, ◌==◌, arith, ◌∙◌, sym,
}
use claude_os_20day_challeng.Pmm.{Pmm, test_bit, mark_used, mark_kernel, init}
use claude_os_20day_challeng.Pmm.Count.{count_clear, get_or-zeros}
use claude_os_20day_challeng.Pmm.Invariant.{
  Inv, mark_used-Inv, test-mark_used, mark_used-total_pages, mark_used-free_pages,
}

-- What a round of marking leaves: `n` pages from `i` on are in use.
record Marked (n i : ℕ) (p q : Pmm) : Type 0 where
  inv : Inv q
  marks :
      (j : ℕ)
      → test_bit q.memory_bitmap j ≡ ((leb i j && ltb j (i + n)) || test_bit p.memory_bitmap j)
  fewer : q.free_pages + n ≡ p.free_pages
  total : q.total_pages ≡ p.total_pages

mark_kernel-Marked :
    (n i : ℕ) (p : Pmm)
    → Inv p
    → i + n ≤ p.total_pages
    → ((j : ℕ) → i ≤ j → test_bit p.memory_bitmap j ≡ false)
    → Marked n i p (mark_kernel n i p)
unfolding mark_kernel
mark_kernel-Marked zero i p v h clear = record {
  inv = v;
  marks = λ j. ground arith;
  fewer = omega arith;
  total = refl;
}
mark_kernel-Marked (suc n) i p v h clear =
    let lt : i < p.total_pages = omega arith in
    let free = clear i (omega arith) in
    let total = mark_used-total_pages p v i lt in
    let rest =
      mark_kernel-Marked n (i + 1) (mark_used p i) (mark_used-Inv p v i lt free)
        (omega (arith, total)) (λ j hj. ground (arith, test-mark_used p v i lt j, clear j)) in
    record {
      inv = rest.inv;
      marks = λ j. ground (arith, rest.marks j, test-mark_used p v i lt j);
      fewer = omega (arith, rest.fewer, mark_used-free_pages p v i lt free);
      total = rest.total ∙ total;
    }

low_bit_table : each_below 8 (λ k. bit_and 0 (2 ^ k) == 0) ≡ true
unfolding each_below
low_bit_table = refl

-- `m` bytes of zeros: the bitmap of a memory with all its `8 * m` pages free.
abbrev cleared : ℕ → Pmm
cleared m = record {
  memory_bitmap = replicate m 0;
  total_pages = 8 * m;
  free_pages = 8 * m;
  first_free_page = 0;
}

test_bit-zeros : (m j : ℕ) → test_bit (replicate m 0) j ≡ false
unfolding test_bit
test_bit-zeros m j =
    rw (get_or-zeros m (j / 8))
      (ground (arith, each_below-lt 8 (λ k. bit_and 0 (2 ^ k) == 0) (j % 8) low_bit_table))

count_clear-zeros : (m n : ℕ) → count_clear (replicate m 0) n ≡ n
unfolding count_clear
count_clear-zeros m zero = refl
count_clear-zeros m (suc n) = ground (arith, test_bit-zeros m n, count_clear-zeros m n)

cleared-Inv : (m : ℕ) → m ≤ 2 ^ 17 → Inv (cleared m)
cleared-Inv m h = record {
  bytes = λ k. omega (arith, get_or-zeros m k);
  sized = omega (arith, length-replicate {A = ℕ} m 0);
  small = omega arith;
  hint = omega arith;
  counted = sym (count_clear-zeros m (8 * m));
}

boot-Marked :
    (m n : ℕ) → m ≤ 2 ^ 17 → n ≤ 8 * m → Marked n 0 (cleared m) (mark_kernel n 0 (cleared m))
boot-Marked m n small fits =
    mark_kernel-Marked n 0 (cleared m) (cleared-Inv m small) (omega arith)
      (λ j _. test_bit-zeros m j)

boot-Inv :
    (m n : ℕ)
    → m ≤ 2 ^ 17
    → n ≤ 8 * m
    → Inv (record (mark_kernel n 0 (cleared m)) { first_free_page = n })
boot-Inv m n small fits =
    let k = boot-Marked m n small fits in
    record {
      bytes = k.inv.bytes;
      sized = k.inv.sized;
      small = k.inv.small;
      hint = omega (arith, k.total);
      counted = k.inv.counted;
    }

-- After `pmm_init` the invariant holds, exactly the 512 pages below 2 MB are in use, and the counters
-- show 7680 free pages of 8192.
pub init-Inv :
    Inv init
    × ((j : ℕ) → test_bit init.memory_bitmap j ≡ ltb j 512)
    × (init.free_pages ≡ 7680)
    × (init.total_pages ≡ 8192)
    × (init.first_free_page ≡ 512)
unfolding init
init-Inv =
    let k = boot-Marked 1024 512 (omega arith) (omega arith) in
    (
      boot-Inv 1024 512 (omega arith) (omega arith),
      λ j. ground (arith, k.marks j, test_bit-zeros 1024 j),
      omega (arith, k.fewer),
      k.total,
      refl,
    )
