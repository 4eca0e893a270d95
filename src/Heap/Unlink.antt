-- ===== src/Heap/Unlink.antt =====
-- `remove_from_free_list` of kernel/heap.c: the list without the block.
use claude_os_20day_challeng.Base.{
  ℕ, ◌≡◌, ◌≢◌, refl, sym, ap, subst, ◌∙◌, true, false, List, [], ◌∷◌, ◌==◌, if◌then◌else◌,
  Bool-cases, inl, inr, arith,
}
use claude_os_20day_challeng.Heap.{Header, Headers, unlink}
use claude_os_20day_challeng.Heap.FreeList.{
  has, erase, head_of, NoDup, Linked, Linked-frame, has-apart, has_first, has_later, prev-has,
  next-has, unlink-away, unlink-next, unlink-prev, Linked-zero,
}

-- A block that is not in the list does not follow one that is.
not_next :
    (h : Headers) (prev b x : ℕ) (xs : List ℕ)
    → Linked h prev xs
    → has b xs ≡ true
    → x ≢ 0
    → has x xs ≡ false
    → x ≢ (h b).next
not_next h prev b x xs l i not_null out e =
    has-apart (h b).next x xs (next-has h prev b xs l i (λ z. not_null (e ∙ z))) out (sym e)

-- The first block goes.
unlink-first :
    (h : Headers) (prev x : ℕ) (xs : List ℕ)
    → Linked h prev (x ∷ xs)
    → NoDup (x ∷ xs)
    → has prev (x ∷ xs) ≡ false
    → Linked (unlink x h) prev xs
unlink-first h prev x [] l d out = tt
unlink-first h prev x (z ∷ zs) l d out =
    let next = l.3 in
    let before = l.2 in
    let rest = l.4 in
    let z_x : z ≢ x = has-apart z x (z ∷ zs) (has_first z zs) d.0 in
    let z_prev : z ≢ prev =
      has-apart z prev (x ∷ z ∷ zs) (has_later z x (z ∷ zs) (has_first z zs)) out in
    let moved =
      unlink-next h x (λ e. rest.0 (sym next ∙ e)) (λ e. z_x (sym next ∙ e))
        (λ e. z_prev (sym next ∙ e ∙ before)) in
    let at_z : unlink x h z ≡ record (h z) { prev = prev } =
      subst (λ c. unlink x h c ≡ record (h c) { prev = prev }) next
        (moved ∙ ap (λ p. record (h (h x).next) { prev = p }) before) in
    (
      rest.0,
      ap (λ (b : Header). b.is_free) at_z ∙ rest.1,
      ap (λ (b : Header). b.prev) at_z,
      ap (λ (b : Header). b.next) at_z ∙ rest.3,
      Linked-frame h (unlink x h) z zs
          (λ a i.
            unlink-away h x a (has-apart a x (z ∷ zs) (has_later a z zs i) d.0)
              (λ e.
                has-apart a prev (x ∷ z ∷ zs) (has_later a x (z ∷ zs) (has_later a z zs i)) out
                  (e ∙ before))
              (λ e. has-apart a z zs i d.1.0 (e ∙ next)))
          rest.4,
    )

-- A block before the one that goes keeps its mark and the block before it, and leads to what is left.
unlink-before :
    (h : Headers) (prev b x : ℕ) (xs : List ℕ)
    → Linked h prev (x ∷ xs)
    → NoDup (x ∷ xs)
    → b ≢ x
    → has b xs ≡ true
    → ((unlink b h x).is_free ≡ true)
      × ((unlink b h x).prev ≡ prev)
      × ((unlink b h x).next ≡ head_of (erase b xs))
unlink-before h prev b x [] l d apart i = cc
unlink-before h prev b x (y ∷ ys) l d apart i =
    let not_b_next = not_next h x b x (y ∷ ys) l.4 i l.0 d.0 in
    elim (Bool-cases (y == b)) [
      | inl t ↦
          let is : y ≡ b = ground arith in
          let before : (h b).prev ≡ x = subst (λ c. (h c).prev ≡ x) is (l.4.2) in
          let after : (h b).next ≡ head_of ys = subst (λ c. (h c).next ≡ head_of ys) is (l.4.3) in
          let moved =
            unlink-prev h b (λ e. l.0 (sym before ∙ e)) (λ e. apart (sym e ∙ before))
              (λ e. not_b_next (sym before ∙ e)) in
          let at_x : unlink b h x ≡ record (h x) { next = head_of ys } =
            subst (λ c. unlink b h c ≡ record (h c) { next = head_of ys }) before
              (moved ∙ ap (λ n. record (h (h b).prev) { next = n }) after) in
          rw t (
            ap (λ (c : Header). c.is_free) at_x ∙ l.1,
            ap (λ (c : Header). c.prev) at_x ∙ l.2,
            ap (λ (c : Header). c.next) at_x,
          )
      | inr f ↦
          let not_first : b ≢ y = λ e. ground arith in
          let in_list : has (h b).prev (y ∷ ys) ≡ true = elim (prev-has h x b (y ∷ ys) l.4 i) [
            | inl first ↦ absurd (not_first first.0)
            | inr later ↦ later.1
          ] in
          let at_x =
            unlink-away h b x (λ e. apart (sym e))
              (λ e. has-apart (h b).prev x (y ∷ ys) in_list d.0 (sym e)) not_b_next in
          rw f (
            ap (λ (c : Header). c.is_free) at_x ∙ l.1,
            ap (λ (c : Header). c.prev) at_x ∙ l.2,
            ap (λ (c : Header). c.next) at_x ∙ l.3,
          )
    ]

-- Taking a block out of the list links the others in their order.
pub Linked-unlink :
    (h : Headers) (prev b : ℕ) (xs : List ℕ)
    → Linked h prev xs
    → NoDup xs
    → has prev xs ≡ false
    → has b xs ≡ true
    → Linked (unlink b h) prev (erase b xs)
Linked-unlink h prev b [] l d out i = cc
Linked-unlink h prev b (x ∷ xs) l d out i = elim (Bool-cases (x == b)) [
  | inl t ↦
      let is : x ≡ b = ground arith in
      rw t (subst (λ c. Linked (unlink c h) prev xs) is (unlink-first h prev x xs l d out))
  | inr f ↦
      let apart : b ≢ x = λ e. ground arith in
      let i' : has b xs ≡ true = ground arith in
      let x_is = unlink-before h prev b x xs l d apart i' in
      rw f (l.0, x_is.0, x_is.1, x_is.2, Linked-unlink h x b xs l.4 d.1 d.0 i')
]

-- Where the list starts afterwards.
pub head-erase :
    (h : Headers) (b : ℕ) (xs : List ℕ)
    → Linked h 0 xs
    → NoDup xs
    → has b xs ≡ true
    → (if (h b).prev == 0 then (h b).next else head_of xs) ≡ head_of (erase b xs)
head-erase h b [] l d i = cc
head-erase h b (x ∷ xs) l d i = elim (Bool-cases (x == b)) [
  | inl t ↦
      let is : x ≡ b = ground arith in
      let before : (h b).prev ≡ 0 = subst (λ c. (h c).prev ≡ 0) is (l.2) in
      let after : (h b).next ≡ head_of xs = subst (λ c. (h c).next ≡ head_of xs) is (l.3) in
      rw (t, before) after
  | inr f ↦
      let apart : b ≢ x = λ e. ground arith in
      elim (prev-has h 0 b (x ∷ xs) l i) [
        | inl first ↦ absurd (apart first.0)
        | inr later ↦
            let not_null = has-apart (h b).prev 0 (x ∷ xs) later.1 (Linked-zero h 0 (x ∷ xs) l) in
            let some_prev : ((h b).prev == 0) ≡ false = ground arith in rw (some_prev, f) refl
      ]
]
