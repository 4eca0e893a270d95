-- ===== src/Heap/Allocate.antt =====
-- `kmalloc` of kernel/heap.c on a block that is found.
use claude_os_20day_challeng.Base.{
  ℕ, ◌+◌, ◌^◌, ◌<◌, ◌≤◌, ◌≡◌, ◌≢◌, refl, sym, ap, subst, ◌∙◌, Bool, true, false, ◌||◌, List, ◌∷◌,
  leb, ◌==◌, if◌then◌else◌, Bool-cases, inl, inr, arith,
}
use claude_os_20day_challeng.Heap.{
  Header, Headers, Heap, header_size, heap_start, split_block, unlink, remove_from_free_list,
  take_block,
}
use claude_os_20day_challeng.Heap.FreeList.{
  has, erase, Linked-self, Linked-frame, Linked-zero, has-apart, erase-has, erase-NoDup,
  unlink-block, unlink-size,
}
use claude_os_20day_challeng.Heap.Unlink.{Linked-unlink, head-erase}
use claude_os_20day_challeng.Heap.Invariant.{Inv, Apart, end_of, block_of}

-- The size that the block keeps.
abbrev pub kept : ℕ → ℕ → ℕ
kept old size = if leb old (size + 32) then old else size

-- A block that is out of the list is split: its rest gets a header of its own, and no other header is
-- written.
split_block-away :
    (h : Headers) (b size a : ℕ)
    → (h b).next ≡ 0
    → a ≢ b
    → a ≢ b + header_size + size
    → split_block b size h a ≡ h a
unfolding split_block
split_block-away h b size a alone nb nr = ground arith

split_block-size :
    (h : Headers) (b size : ℕ)
    → size + 32 < 2 ^ 32
    → (h b).next ≡ 0
    → (split_block b size h b).size ≡ kept (h b).size size
unfolding split_block
split_block-size h b size small alone = ground arith

split_block-fits :
    (h : Headers) (b size a : ℕ)
    → size + 32 < 2 ^ 32
    → (h b).size ≤ size + 32
    → split_block b size h a ≡ h a
unfolding split_block
split_block-fits h b size a small fits = ground arith

moved_block :
    (a b : ℕ) (left free live : Bool)
    → (left || (a == b || live)) ≡ true
    → a ≢ b
    → ((left ≡ true) → free ≡ true)
    → (free || live) ≡ true
moved_block a b true free live i other was = ground (arith, was refl)
moved_block a b false free live i other was = ground arith

module _ (s : Heap) (free live : List ℕ) (b size : ℕ) (inv : Inv s free live)
    (here : has b free ≡ true) (fits : size ≤ (s.headers b).size) (small : size + 32 < 2 ^ 32) where
  abbrev after : Headers
  after = split_block b size (unlink b s.headers)

  own_block : block_of free live b ≡ true
  own_block = ground arith

  out_alone :
      unlink b s.headers b
      ≡ record { size = (s.headers b).size; is_free = false; next = 0; prev = 0 }
  out_alone =
      let own =
        Linked-self s.headers 0 b free inv.linked inv.no_dup
          (Linked-zero s.headers 0 free inv.linked) here in
      unlink-block s.headers b own.0 own.1

  -- The header of another block is not written by the split.
  split_other : (a : ℕ) → block_of free live a ≡ true → a ≢ b → after a ≡ unlink b s.headers a
  split_other a i other =
      let alone = ap (λ (c : Header). c.next) out_alone in
      elim (Bool-cases (leb (s.headers b).size (size + 32))) [
        | inl t ↦
            split_block-fits (unlink b s.headers) b size a small
              (ground (arith, unlink-size s.headers b b))
        | inr f ↦
            split_block-away (unlink b s.headers) b size a alone other
              (elim (inv.apart a b i own_block other) [
                | inl before ↦ λ e. ground arith
                | inr behind ↦ λ e. ground arith
              ])
      ]

  other_size : (a : ℕ) → block_of free live a ≡ true → a ≢ b → (after a).size ≡ (s.headers a).size
  other_size a i other =
      ap (λ (c : Header). c.size) (split_other a i other) ∙ unlink-size s.headers b a

  own_size : (after b).size ≡ kept (s.headers b).size size
  own_size =
      split_block-size (unlink b s.headers) b size small (ap (λ (c : Header). c.next) out_alone)
      ∙ ap (λ n. kept n size) (unlink-size s.headers b b)

  -- A block afterwards was one before.
  was_block :
      (a : ℕ) → block_of (erase b free) (b ∷ live) a ≡ true → a ≢ b → block_of free live a ≡ true
  was_block a i other =
      moved_block a b (has a (erase b free)) (has a free) (has a live) i other (erase-has a b free)

  taken_in_heap :
      (a : ℕ)
      → block_of (erase b free) (b ∷ live) a ≡ true
      → (heap_start ≤ a) × (end_of after a ≤ s.heap_end)
  taken_in_heap a i = elim (Bool-cases (a == b)) [
    | inl t ↦
        let e : a ≡ b = ground arith in
        let old = inv.in_heap b own_block in
        let own = own_size in
        subst (λ c. (heap_start ≤ c) × (end_of after c ≤ s.heap_end)) (sym e)
          (old.0, ground (arith, own, old.1))
    | inr f ↦
        let other : a ≢ b = ground arith in
        let old = inv.in_heap a (was_block a i other) in
        (old.0, omega (arith, old.1, other_size a (was_block a i other) other))
  ]

  -- The blocks only shrink.
  shrinks :
      (a : ℕ)
      → block_of (erase b free) (b ∷ live) a ≡ true
      → (block_of free live a ≡ true) × (end_of after a ≤ end_of s.headers a)
  shrinks a i = elim (Bool-cases (a == b)) [
    | inl t ↦
        let e : a ≡ b = ground arith in
        let own = own_size in
        subst (λ c. (block_of free live c ≡ true) × (end_of after c ≤ end_of s.headers c)) (sym e)
          (own_block, ground (arith, own))
    | inr f ↦
        let other : a ≢ b = ground arith in
        (was_block a i other, omega (arith, other_size a (was_block a i other) other))
  ]

  taken_spacing :
      (a c : ℕ)
      → block_of (erase b free) (b ∷ live) a ≡ true
      → block_of (erase b free) (b ∷ live) c ≡ true
      → a ≢ c
      → Apart after a c
  taken_spacing a c i j distinct =
      let (i', le) = shrinks a i in
      let (j', le') = shrinks c j in
      elim (inv.apart a c i' j' distinct) [
        | inl before ↦ inl (omega arith)
        | inr behind ↦ inr (omega arith)
      ]

  taken_exclusive : (a : ℕ) → has a (erase b free) ≡ true → has a (b ∷ live) ≡ false
  taken_exclusive a i = ground (
    arith,
    erase-has a b free i,
    inv.exclusive a (erase-has a b free i),
    has-apart a b (erase b free) i (erase-NoDup b free inv.no_dup).1,
  )

  -- Taking a block off the list keeps the invariant: the block is allocated then, with the size asked
  -- for or more, and every block keeps apart from the others.
  pub take_block-Inv :
      let (r, s') = take_block b size s in
      (r ≡ b + header_size) × Inv s' (erase b free) (b ∷ live) × (size ≤ (s'.headers b).size)
  unfolding take_block remove_from_free_list
  take_block-Inv = (
    refl,
    record {
      linked =
          Linked-frame (unlink b s.headers) after 0 (erase b free)
            (λ a i.
              split_other a (ground (arith, erase-has a b free i))
                (has-apart a b (erase b free) i (erase-NoDup b free inv.no_dup).1))
            (Linked-unlink s.headers 0 b free inv.linked inv.no_dup
              (Linked-zero s.headers 0 free inv.linked) here);
      starts = rw (inv.starts) (head-erase s.headers b free inv.linked inv.no_dup here);
      no_dup = (erase-NoDup b free inv.no_dup).0;
      live_no_dup = (inv.exclusive b here, inv.live_no_dup);
      exclusive = taken_exclusive;
      in_heap = taken_in_heap;
      apart = taken_spacing;
      small = inv.small;
    },
    ground (arith, own_size),
  )
