-- ===== src/Heap.antt =====
-- The kernel heap of kernel/heap.c over the page tables. Headers are given by the address of their
-- block, 0 standing for NULL, and the bytes of the blocks by their addresses: what a program writes past
-- its block, and what a new header writes over free bytes, is left out.
mod FreeList
mod Unlink
mod Invariant
mod Release
mod Coalesce
mod Free
mod Allocate
mod Kmalloc
mod Defects
mod Tests
use claude_os_20day_challeng.Base.{
  ℕ, zero, suc, ◌+◌, ◌-◌, ◌*◌, ◌/◌, ◌%◌, ◌^◌, Bool, true, false, not, ◌&&◌, ◌||◌, Option, none,
  some, ltb, leb, ◌==◌, if◌then◌else◌, add32, sub32, u32_mod,
}
use claude_os_20day_challeng.Pmm.{alloc_page}
use claude_os_20day_challeng.Vmm.{Vmm, map_page, present_writable}

abbrev pub heap_start : ℕ
heap_start = 0x400000

abbrev pub heap_initial_size : ℕ
heap_initial_size = 0x100000

abbrev pub heap_max : ℕ
heap_max = heap_start + 0x800000

abbrev pub page_size : ℕ
page_size = 4096

-- sizeof(block_header_t).
abbrev pub header_size : ℕ
header_size = 16

-- `block_header_t`.
pub record Header : Type 0 where
  pub size : ℕ
  pub is_free : Bool
  pub next : ℕ
  pub prev : ℕ

abbrev pub Headers : Type 0
Headers = ℕ → Header

pub record Heap : Type 0 where
  pub vmm : Vmm
  pub headers : Headers
  pub bytes : ℕ → ℕ
  pub heap_end : ℕ
  pub free_list_head : ℕ
  pub heap_initialized : Bool

-- `*block = f(*block)`.
abbrev pub update : Headers → ℕ → (Header → Header) → Headers
update h block f a = if a == block then f (h a) else h a

-- `find_free_block`, whose list is walked for at most `fuel` blocks; 0 for NULL.
unfoldable pub find_from : Headers → ℕ → ℕ → ℕ → ℕ
find_from h size zero current = 0
find_from h size (suc fuel) current =
    let rest = find_from h size fuel (h current).next in
    if current == 0
    then 0
    else (if (h current).is_free && leb size (h current).size then current else rest)

-- More than the blocks that the largest heap can hold.
abbrev pub list_fuel : ℕ
list_fuel = 0x100000

abbrev pub find_free_block : ℕ → Heap → ℕ
find_free_block size s = find_from s.headers size list_fuel s.free_list_head

-- `split_block`.
unfoldable pub split_block : ℕ → ℕ → Headers → Headers
split_block block size h =
    if leb (h block).size (add32 size (header_size + 16))
    then h
    else (let new_block = block + header_size + size in
        let next = (h block).next in
        let h1 = update h new_block (λ _. record {
          size = sub32 (sub32 (h block).size size) header_size;
          is_free = true;
          next = next;
          prev = block;
        }) in
        let h2 = if next == 0 then h1 else update h1 next (λ b. record b { prev = new_block }) in
        update h2 block (λ b. record b { next = new_block; size = size }))

-- `add_to_free_list`: the headers, and the block that becomes the head.
unfoldable pub link_first : ℕ → ℕ → Headers → Headers
link_first block head h =
    let h1 = update h block (λ b. record b { is_free = true; next = head; prev = 0 }) in
    if head == 0 then h1 else update h1 head (λ b. record b { prev = block })

unfoldable pub add_to_free_list : ℕ → Heap → Heap
unfolding link_first
add_to_free_list block s = record s {
  headers = link_first block s.free_list_head s.headers;
  free_list_head = block;
}

-- `remove_from_free_list`: the headers.
unfoldable pub unlink : ℕ → Headers → Headers
unlink block h =
    let prev = (h block).prev in
    let next = (h block).next in
    let h1 = if prev == 0 then h else update h prev (λ b. record b { next = next }) in
    let h2 = if next == 0 then h1 else update h1 next (λ b. record b { prev = prev }) in
    update h2 block (λ b. record b { is_free = false; next = 0; prev = 0 })

unfoldable pub remove_from_free_list : ℕ → Heap → Heap
unfolding unlink
remove_from_free_list block s = record s {
  headers = unlink block s.headers;
  free_list_head = if (s.headers block).prev == 0 then (s.headers block).next else s.free_list_head;
}

-- The loop that maps `n` pages from `virt_addr` on: whether it got them all.
unfoldable pub map_pages : ℕ → ℕ → Vmm → Bool × Vmm
map_pages zero virt_addr v = (true, v)
map_pages (suc n) virt_addr v =
    let (phys_page, pmm') = alloc_page v.pmm in
    let v' = record v { pmm = pmm' } in
    let rest =
      map_pages n (add32 virt_addr page_size)
        (map_page v.current_page_directory virt_addr phys_page present_writable v') in
    if phys_page == 0 then (false, v') else rest

-- The new block at the end of the heap.
unfoldable pub grow : ℕ → Heap → Heap
unfolding add_to_free_list
grow needed_size s = add_to_free_list s.heap_end (record s {
  headers =
      update s.headers s.heap_end
        (λ _. record { size = sub32 needed_size header_size; is_free = true; next = 0; prev = 0 });
  heap_end = add32 s.heap_end needed_size;
})

-- `needed_size`: the size and its header, in whole pages.
abbrev pub needed_size : ℕ → ℕ
needed_size min_size = add32 min_size (header_size + (page_size - 1)) / page_size * page_size

-- `heap_expand`.
unfoldable pub expand : ℕ → Heap → Bool × Heap
unfolding grow
expand min_size s =
    if ltb heap_max (add32 s.heap_end min_size)
    then (false, s)
    else (let needed = needed_size min_size in
        let (mapped, v) = map_pages (needed / page_size) s.heap_end s.vmm in
        let s' = record s { vmm = v } in if mapped then (true, grow needed s') else (false, s'))

-- `heap_init`; none stands for the panic without a page. Without a page directory nothing is done.
unfoldable pub init : Heap → Option Heap
init s =
    if s.vmm.current_page_directory == 0
    then some s
    else (let (mapped, v) = map_pages (heap_initial_size / page_size) heap_start s.vmm in
        if mapped
        then some (record s {
          vmm = v;
          heap_end = heap_start + heap_initial_size;
          headers = update s.headers heap_start (λ _. record {
            size = heap_initial_size - header_size;
            is_free = true;
            next = 0;
            prev = 0;
          });
          free_list_head = heap_start;
          heap_initialized = true;
        })
        else none)

-- The part of `kmalloc` after a block is found.
unfoldable pub take_block : ℕ → ℕ → Heap → ℕ × Heap
take_block block size s =
    let t = remove_from_free_list block s in
    (block + header_size, record t { headers = split_block block size t.headers })

-- `(size + 7) & ~7`.
abbrev pub align : ℕ → ℕ
align size = add32 size 7 / 8 * 8

-- `kmalloc` once the size is aligned.
unfoldable pub alloc_aligned : ℕ → Heap → ℕ × Heap
unfolding take_block
alloc_aligned size s =
    let block = find_free_block size s in
    if not (block == 0)
    then take_block block size s
    else (let (grown, s') = expand size s in
        let block' = find_free_block size s' in
        if not grown || block' == 0 then (0, s') else take_block block' size s')

-- `kmalloc`: the address, 0 for NULL.
unfoldable pub kmalloc : ℕ → Heap → ℕ × Heap
unfolding alloc_aligned
kmalloc size s =
    if not s.heap_initialized || size == 0 then (0, s) else alloc_aligned (align size) s

-- The loop of `heap_coalesce_free_blocks`, none when the fuel does not do.
unfoldable pub coalesce : ℕ → ℕ → Headers → Option Headers
coalesce zero current h = none
coalesce (suc fuel) current h =
    let next = (h current).next in
    let size' = add32 (h current).size (header_size + (h next).size) in
    let h1 = update h current (λ b. record b { size = size'; next = (h next).next }) in
    let h2 =
      if (h next).next == 0
      then h1
      else update h1 (h next).next (λ b. record b { prev = current }) in
    let merged = coalesce fuel current h2 in
    let moved = coalesce fuel next h in
    if current == 0 || next == 0
    then some h
    else (if add32 current (header_size + (h current).size) == next && (h next).is_free
        then merged
        else moved)

-- `kfree`.
unfoldable pub kfree : ℕ → ℕ → Heap → Option Heap
kfree fuel ptr s =
    let block = sub32 ptr header_size in
    if ptr == 0 || not s.heap_initialized || ltb block heap_start || leb s.heap_end block
    then some s
    else (let t = add_to_free_list block s in
        elim (coalesce fuel t.free_list_head t.headers) [
          | none ↦ none
          | some h ↦ some (record t { headers = h })
        ])

-- `memcpy` and `memset` on the bytes.
abbrev pub copy_bytes : ℕ → ℕ → ℕ → (ℕ → ℕ) → ℕ → ℕ
copy_bytes dest src count bytes a =
    if leb dest a && ltb a (dest + count) then bytes (src + (a - dest)) else bytes a

abbrev pub set_bytes : ℕ → ℕ → ℕ → (ℕ → ℕ) → ℕ → ℕ
set_bytes dest value count bytes a = if leb dest a && ltb a (dest + count) then value else bytes a

-- `krealloc` to a new block.
unfoldable pub move_block : ℕ → ℕ → ℕ → Heap → Option (ℕ × Heap)
move_block fuel ptr new_size s =
    let (new_ptr, s') = kmalloc new_size s in
    let old_size = (s'.headers (ptr - header_size)).size in
    if new_ptr == 0
    then some (0, s')
    else elim (kfree fuel ptr (record s' {
      bytes =
          copy_bytes new_ptr ptr (if ltb old_size new_size then old_size else new_size) s'.bytes;
    })) [ none ↦ none | some t ↦ some (new_ptr, t) ]

-- `krealloc`, with the fuel of its `kfree`.
unfoldable pub krealloc : ℕ → ℕ → ℕ → Heap → Option (ℕ × Heap)
unfolding move_block
krealloc fuel ptr new_size s =
    if ptr == 0
    then some (kmalloc new_size s)
    else (if new_size == 0
        then elim (kfree fuel ptr s) [ none ↦ none | some t ↦ some (0, t) ]
        else (if leb new_size (s.headers (ptr - header_size)).size
            then some (ptr, s)
            else move_block fuel ptr new_size s))

-- `kcalloc`: the product wraps.
unfoldable pub kcalloc : ℕ → ℕ → Heap → ℕ × Heap
kcalloc count size s =
    let total_size = count * size % u32_mod in
    let (ptr, s') = kmalloc total_size s in
    if ptr == 0 then (0, s') else (ptr, record s' { bytes = set_bytes ptr 0 total_size s'.bytes })

-- `heap_get_total_size`, and the loop of `heap_get_used_size`.
abbrev pub total_size : Heap → ℕ
total_size s = sub32 s.heap_end heap_start

unfoldable pub used_from : Headers → ℕ → ℕ → ℕ → Option ℕ
used_from h end zero current = none
used_from h end (suc fuel) current =
    let size = header_size + (h current).size in
    let rest = used_from h end fuel (current + size) in
    if leb end current then some 0 else elim rest [
      | none ↦ none
      | some used ↦ some ((if (h current).is_free then 0 else size) + used)
    ]
