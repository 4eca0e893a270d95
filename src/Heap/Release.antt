-- ===== src/Heap/Release.antt =====
-- The steps of `kfree` of kernel/heap.c: a block in front of the list, and the merge of two neighbours.
use claude_os_20day_challeng.Base.{
  ℕ, ◌+◌, ◌^◌, ◌<◌, ◌≤◌, ◌≡◌, ◌≢◌, sym, ap, subst, ◌∙◌, Bool, true, false, List, [], ◌∷◌, ◌==◌,
  if◌then◌else◌, add32, Bool-cases, inl, inr, arith,
}
use claude_os_20day_challeng.Heap.{Header, Headers, update, header_size, heap_start, link_first}
use claude_os_20day_challeng.Heap.FreeList.{
  has, head_of, NoDup, Linked, Linked-frame, has-apart, has_first, has_later, head-has,
}
use claude_os_20day_challeng.Heap.Invariant.{Apart, end_of}

link_first-block :
    (h : Headers) (b head : ℕ)
    → b ≢ head
    → link_first b head h b ≡ record { size = (h b).size; is_free = true; next = head; prev = 0 }
unfolding link_first
link_first-block h b head apart = ground arith

link_first-head :
    (h : Headers) (b head : ℕ)
    → head ≢ b
    → head ≢ 0
    → link_first b head h head ≡ record (h head) { prev = b }
unfolding link_first
link_first-head h b head apart not_null = ground arith

pub link_first-away : (h : Headers) (b head a : ℕ) → a ≢ b → a ≢ head → link_first b head h a ≡ h a
unfolding link_first
link_first-away h b head a nb nh = ground arith

-- `add_to_free_list` links the block before the list.
pub link_first-Linked :
    (h : Headers) (b : ℕ) (xs : List ℕ)
    → Linked h 0 xs
    → NoDup xs
    → b ≢ 0
    → has b xs ≡ false
    → Linked (link_first b (head_of xs) h) 0 (b ∷ xs)
unfolding link_first
link_first-Linked h b [] l d not_null out = (not_null, ground arith, ground arith, ground arith, tt)
link_first-Linked h b (x ∷ xs) l d not_null out =
    let x_b : x ≢ b = has-apart x b (x ∷ xs) (has_first x xs) out in
    let own = link_first-block h b x in
    let first = link_first-head h b x x_b l.0 in
    (
      not_null,
      ap (λ (c : Header). c.is_free) (own (λ e. x_b (sym e))),
      ap (λ (c : Header). c.prev) (own (λ e. x_b (sym e))),
      ap (λ (c : Header). c.next) (own (λ e. x_b (sym e))),
      (
        l.0,
        ap (λ (c : Header). c.is_free) first ∙ l.1,
        ap (λ (c : Header). c.prev) first,
        ap (λ (c : Header). c.next) first ∙ l.3,
        Linked-frame h (link_first b x h) x xs
            (λ a i.
              link_first-away h b x a (has-apart a b (x ∷ xs) (has_later a x xs i) out)
                (has-apart a x xs i d.0))
            l.4,
      ),
    )

pub link_first-size : (h : Headers) (b head a : ℕ) → (link_first b head h a).size ≡ (h a).size
unfolding link_first
link_first-size h b head a = ground arith

-- The block `x` takes in its neighbour `y`.
abbrev pub merge : ℕ → Headers → Headers
merge x h =
    let next = (h x).next in
    let h1 = update h x (λ b. record b {
      size = add32 (h x).size (header_size + (h next).size);
      next = (h next).next;
    }) in
    if (h next).next == 0 then h1 else update h1 (h next).next (λ b. record b { prev = x })

pub merge-away : (h : Headers) (x a : ℕ) → a ≢ x → a ≢ (h (h x).next).next → merge x h a ≡ h a
merge-away h x a nx nn = ground arith

merge-block :
    (h : Headers) (x : ℕ)
    → x ≢ (h (h x).next).next
    → merge x h x ≡ record (h x) {
      size = add32 (h x).size (header_size + (h (h x).next).size);
      next = (h (h x).next).next;
    }
merge-block h x nn = ground arith

merge-next :
    (h : Headers) (x : ℕ)
    → (h (h x).next).next ≢ 0
    → (h (h x).next).next ≢ x
    → merge x h (h (h x).next).next ≡ record (h (h (h x).next).next) { prev = x }
merge-next h x some_next nx = ground arith

merge-size : (h : Headers) (x a : ℕ) → a ≢ x → (merge x h a).size ≡ (h a).size
merge-size h x a nx = ground arith

-- The block after the two.
pub second_next :
    (h : Headers) (prev x y : ℕ) (xs : List ℕ)
    → Linked h prev (x ∷ y ∷ xs)
    → NoDup (x ∷ y ∷ xs)
    → ((h (h x).next).next ≡ head_of xs) × (x ≢ (h (h x).next).next)
second_next h prev x y xs l d =
    let second : (h (h x).next).next ≡ head_of xs =
      subst (λ c. (h c).next ≡ head_of xs) (sym (l.3)) (l.4.3) in
    (
      second,
      (λ e.
          has-apart (head_of xs) x (y ∷ xs)
            (has_later (head_of xs) y xs (head-has xs (λ z. l.0 (e ∙ second ∙ z)))) d.0
            (sym (e ∙ second))),
    )

merge-rest :
    (h : Headers) (prev x y : ℕ) (xs : List ℕ)
    → Linked h prev (x ∷ y ∷ xs)
    → NoDup (x ∷ y ∷ xs)
    → Linked (merge x h) x xs
merge-rest h prev x y [] l d = tt
merge-rest h prev x y (z ∷ zs) l d =
    let (second, apart) = second_next h prev x y (z ∷ zs) l d in
    let rest = l.4.4 in
    let at_z : merge x h z ≡ record (h z) { prev = x } =
      subst (λ c. merge x h c ≡ record (h c) { prev = x }) second
        (merge-next h x (λ e. rest.0 (sym second ∙ e)) (λ e. apart (sym e))) in
    (
      rest.0,
      ap (λ (c : Header). c.is_free) at_z ∙ rest.1,
      ap (λ (c : Header). c.prev) at_z,
      ap (λ (c : Header). c.next) at_z ∙ rest.3,
      Linked-frame h (merge x h) z zs
          (λ a i.
            merge-away h x a
              (has-apart a x (y ∷ z ∷ zs) (has_later a y (z ∷ zs) (has_later a z zs i)) d.0)
              (λ e. has-apart a z zs i d.1.1.0 (e ∙ second)))
          rest.4,
    )

-- The neighbour leaves the list.
pub merge-Linked :
    (h : Headers) (prev x y : ℕ) (xs : List ℕ)
    → Linked h prev (x ∷ y ∷ xs)
    → NoDup (x ∷ y ∷ xs)
    → ((merge x h x).size ≡ add32 (h x).size (header_size + (h y).size))
      × Linked (merge x h) prev (x ∷ xs)
merge-Linked h prev x y xs l d =
    let (second, apart) = second_next h prev x y xs l d in
    let own = merge-block h x apart in
    (
      ap (λ (c : Header). c.size) own ∙ ap (λ c. add32 (h x).size (header_size + (h c).size)) (l.3),
      (
        l.0,
        ap (λ (c : Header). c.is_free) own ∙ l.1,
        ap (λ (c : Header). c.prev) own ∙ l.2,
        ap (λ (c : Header). c.next) own ∙ second,
        merge-rest h prev x y xs l d,
      ),
    )

-- The blocks of `p` lie in the heap, apart from each other.
pub record Spaced (h : Headers) (end : ℕ) (p : ℕ → Bool) : Type 0 where
  pub in_heap : (a : ℕ) → p a ≡ true → (heap_start ≤ a) × (end_of h a ≤ end)
  pub apart : (a c : ℕ) → p a ≡ true → p c ≡ true → a ≢ c → Apart h a c

Apart-sym : (h : Headers) (a c : ℕ) → Apart h a c → Apart h c a
Apart-sym h a c (inl before) = inr before
Apart-sym h a c (inr behind) = inl behind

-- Merging keeps the blocks apart.
pub merge-Spaced :
    (h : Headers) (end x y : ℕ) (p q : ℕ → Bool)
    → end < 2 ^ 31
    → Spaced h end p
    → p x ≡ true
    → p y ≡ true
    → x ≢ y
    → add32 x (header_size + (h x).size) ≡ y
    → (merge x h x).size ≡ add32 (h x).size (header_size + (h y).size)
    → ((a : ℕ) → q a ≡ true → (p a ≡ true) × (a ≢ y))
    → Spaced (merge x h) end q
merge-Spaced h end x y p q small sp px py x_y meets grown sub =
    let bx = sp.in_heap x px in
    let by = sp.in_heap y py in
    let ends : end_of (merge x h) x ≡ end_of h y = omega arith in
    let here : end_of h x ≡ y = omega arith in
    let merged_apart : (c : ℕ) → p c ≡ true → c ≢ y → c ≢ x → Apart (merge x h) x c = λ c pc cy cx.
      let same = merge-size h x c cx in
      elim (sp.apart x c px pc (λ e. cx (sym e))) [
        | inl before ↦ elim (sp.apart y c py pc (λ e. cy (sym e))) [
          | inl below ↦ inl (omega arith)
          | inr above ↦ absurd (omega arith)
        ]
        | inr behind ↦ inr (omega arith)
      ] in
    record {
      in_heap = λ a qa. elim (Bool-cases (a == x)) [
        | inl t ↦
            let e : a ≡ x = ground arith in
            subst (λ c. (heap_start ≤ c) × (end_of (merge x h) c ≤ end)) (sym e) (bx.0, omega arith)
        | inr f ↦
            let other : a ≢ x = ground arith in
            let old = sp.in_heap a (sub a qa).0 in
            (old.0, omega (arith, old.1, merge-size h x a other))
      ];
      apart = λ a c qa qc ne. elim (Bool-cases (a == x)) [
        | inl t ↦
            let e : a ≡ x = ground arith in
            let other : c ≢ x = λ d. ne (e ∙ sym d) in
            subst (λ b. Apart (merge x h) b c) (sym e)
              (merged_apart c (sub c qc).0 (sub c qc).1 other)
        | inr f ↦ elim (Bool-cases (c == x)) [
          | inl t ↦
              let e : c ≡ x = ground arith in
              let other : a ≢ x = ground arith in
              subst (λ b. Apart (merge x h) a b) (sym e)
                (Apart-sym (merge x h) x a (merged_apart a (sub a qa).0 (sub a qa).1 other))
          | inr g ↦
              let other : a ≢ x = ground arith in
              let other' : c ≢ x = ground arith in
              let same = merge-size h x a other in
              let same' = merge-size h x c other' in
              elim (sp.apart a c (sub a qa).0 (sub c qc).0 ne) [
                | inl before ↦ inl (omega arith)
                | inr behind ↦ inr (omega arith)
              ]
        ]
      ];
    }
