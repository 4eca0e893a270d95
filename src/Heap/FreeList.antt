-- ===== src/Heap/FreeList.antt =====
-- The free list of kernel/heap.c as a list of addresses: search, removal and insertion.
use claude_os_20day_challeng.Base.{
  ℕ, zero, suc, ◌<◌, ◌≤◌, ◌≡◌, ◌≢◌, ◌⊎◌, refl, sym, ap, subst, ◌∙◌, Bool, true, false, ◌||◌, List,
  [], ◌∷◌, length, leb, ◌==◌, if◌then◌else◌, Bool-cases, inl, inr, arith,
}
use claude_os_20day_challeng.Heap.{Header, Headers, find_from, unlink}

abbrev pub has : ℕ → List ℕ → Bool
has a [] = false
has a (x ∷ xs) = a == x || has a xs

abbrev pub erase : ℕ → List ℕ → List ℕ
erase a [] = []
erase a (x ∷ xs) = if x == a then xs else x ∷ erase a xs

-- The address of the first block, 0 of none.
abbrev pub head_of : List ℕ → ℕ
head_of [] = 0
head_of (x ∷ xs) = x

abbrev pub NoDup : List ℕ → Type 0
NoDup [] = Unit {0}
NoDup (x ∷ xs) = (has x xs ≡ false) × NoDup xs

-- The headers link the blocks in this order, `prev` standing before them, and mark them free.
abbrev pub Linked : Headers → ℕ → List ℕ → Type 0
Linked h prev [] = Unit {0}
Linked h prev (x ∷ xs) =
    (x ≢ 0)
    × ((h x).is_free ≡ true)
    × ((h x).prev ≡ prev)
    × ((h x).next ≡ head_of xs)
    × Linked h x xs

pub apart_of : (a b : ℕ) → (a == b) ≡ false → a ≢ b
apart_of a b f = ground arith

pub has_first : (x : ℕ) (xs : List ℕ) → has x (x ∷ xs) ≡ true
has_first x xs = ground arith

pub has_later : (a x : ℕ) (xs : List ℕ) → has a xs ≡ true → has a (x ∷ xs) ≡ true
has_later a x xs i = ground arith

pub has-apart : (a x : ℕ) (xs : List ℕ) → has a xs ≡ true → has x xs ≡ false → a ≢ x
has-apart a x xs i out e = ground arith

-- Headers that agree on the list link it too.
pub Linked-frame :
    (h g : Headers) (prev : ℕ) (xs : List ℕ)
    → ((a : ℕ) → has a xs ≡ true → g a ≡ h a)
    → Linked h prev xs
    → Linked g prev xs
Linked-frame h g prev [] same l = tt
Linked-frame h g prev (x ∷ xs) same l =
    let e = same x (ground arith) in
    (
      l.0,
      ap (λ (b : Header). b.is_free) e ∙ l.1,
      ap (λ (b : Header). b.prev) e ∙ l.2,
      ap (λ (b : Header). b.next) e ∙ l.3,
      Linked-frame h g x xs (λ a i. same a (ground arith)) l.4,
    )

-- First fit: the first block of the list that is large enough.
abbrev pub first_fit : Headers → ℕ → List ℕ → ℕ
first_fit h size [] = 0
first_fit h size (x ∷ xs) = if leb size (h x).size then x else first_fit h size xs

pub find_from-first_fit :
    (h : Headers) (size fuel prev : ℕ) (xs : List ℕ)
    → Linked h prev xs
    → length xs < fuel
    → find_from h size fuel (head_of xs) ≡ first_fit h size xs
unfolding find_from
find_from-first_fit h size zero prev xs l enough = absurd (omega arith)
find_from-first_fit h size (suc fuel) prev [] l enough = refl
find_from-first_fit h size (suc fuel) prev (x ∷ xs) l enough =
    let rest = find_from-first_fit h size fuel x xs l.4 (omega arith) in
    let next = ap (find_from h size fuel) (l.3) in ground (arith, l.0, l.1, rest, next)

-- What first fit finds.
pub first_fit-has :
    (h : Headers) (size : ℕ) (xs : List ℕ)
    → first_fit h size xs ≢ 0
    → (has (first_fit h size xs) xs ≡ true) × (size ≤ (h (first_fit h size xs)).size)
first_fit-has h size [] some_found = absurd (some_found refl)
first_fit-has h size (x ∷ xs) some_found = elim (Bool-cases (leb size (h x).size)) [
  | inl fits ↦ rw fits (ground arith, ground arith)
  | inr small ↦
      let same : first_fit h size (x ∷ xs) ≡ first_fit h size xs = rw small refl in
      let rest = first_fit-has h size xs (λ e. some_found (same ∙ e)) in
      subst (λ b. (has b (x ∷ xs) ≡ true) × (size ≤ (h b).size)) (sym same)
        (ground (arith, rest.0), rest.1)
]

pub head-has : (xs : List ℕ) → head_of xs ≢ 0 → has (head_of xs) xs ≡ true
head-has [] some_head = absurd (some_head refl)
head-has (x ∷ xs) some_head = ground arith

-- The block before a block of the list is the start or in the list, and the one after it is in the list.
pub prev-has :
    (h : Headers) (prev b : ℕ) (xs : List ℕ)
    → Linked h prev xs
    → has b xs ≡ true
    → ((b ≡ head_of xs) × ((h b).prev ≡ prev)) ⊎ ((b ≢ head_of xs) × (has (h b).prev xs ≡ true))
prev-has h prev b [] l i = cc
prev-has h prev b (x ∷ xs) l i = elim (Bool-cases (b == x)) [
  | inl t ↦ let e : b ≡ x = ground arith in inl (e, subst (λ c. (h c).prev ≡ prev) (sym e) (l.2))
  | inr f ↦ elim (prev-has h x b xs l.4 (ground arith)) [
    | inl first ↦
        inr (apart_of b x f, subst (λ c. has c (x ∷ xs) ≡ true) (sym first.1) (has_first x xs))
    | inr later ↦ inr (apart_of b x f, has_later (h b).prev x xs later.1)
  ]
]

pub next-has :
    (h : Headers) (prev b : ℕ) (xs : List ℕ)
    → Linked h prev xs
    → has b xs ≡ true
    → (h b).next ≢ 0
    → has (h b).next xs ≡ true
next-has h prev b [] l i some_next = cc
next-has h prev b (x ∷ xs) l i some_next = elim (Bool-cases (b == x)) [
  | inl t ↦
      let e : b ≡ x = ground arith in
      let is : (h b).next ≡ head_of xs = subst (λ c. (h c).next ≡ head_of xs) (sym e) (l.3) in
      ground (arith, is, head-has xs (λ z. some_next (is ∙ z)))
  | inr f ↦ ground (arith, next-has h x b xs l.4 (ground arith) some_next)
]

pub erase-has : (a b : ℕ) (xs : List ℕ) → has a (erase b xs) ≡ true → has a xs ≡ true
erase-has a b [] i = i
erase-has a b (x ∷ xs) i = ground (arith, erase-has a b xs)

pub erase-NoDup :
    (b : ℕ) (xs : List ℕ) → NoDup xs → NoDup (erase b xs) × (has b (erase b xs) ≡ false)
erase-NoDup b [] d = (tt, refl)
erase-NoDup b (x ∷ xs) d =
    let rest = erase-NoDup b xs d.1 in
    elim (Bool-cases (x == b)) [
      | inl t ↦ rw t (d.1, ground (arith, d.0))
      | inr f ↦ rw f ((ground (arith, d.0, erase-has x b xs), rest.0), ground (arith, rest.1))
    ]

-- What `unlink` does to a header, by its place.
pub unlink-away :
    (h : Headers) (b a : ℕ) → a ≢ b → a ≢ (h b).prev → a ≢ (h b).next → unlink b h a ≡ h a
unfolding unlink
unlink-away h b a nb np nn = ground arith

pub unlink-next :
    (h : Headers) (b : ℕ)
    → (h b).next ≢ 0
    → (h b).next ≢ b
    → (h b).next ≢ (h b).prev
    → unlink b h (h b).next ≡ record (h (h b).next) { prev = (h b).prev }
unfolding unlink
unlink-next h b some_next nb np = ground arith

pub unlink-prev :
    (h : Headers) (b : ℕ)
    → (h b).prev ≢ 0
    → (h b).prev ≢ b
    → (h b).prev ≢ (h b).next
    → unlink b h (h b).prev ≡ record (h (h b).prev) { next = (h b).next }
unfolding unlink
unlink-prev h b some_prev nb nn = ground arith

pub unlink-block :
    (h : Headers) (b : ℕ)
    → (h b).prev ≢ b
    → (h b).next ≢ b
    → unlink b h b ≡ record { size = (h b).size; is_free = false; next = 0; prev = 0 }
unfolding unlink
unlink-block h b np nn = ground arith

-- Sizes stay.
pub unlink-size : (h : Headers) (b a : ℕ) → (unlink b h a).size ≡ (h a).size
unfolding unlink
unlink-size h b a = ground arith

-- NULL is no block of the list.
pub Linked-zero : (h : Headers) (prev : ℕ) (xs : List ℕ) → Linked h prev xs → has 0 xs ≡ false
Linked-zero h prev [] l = refl
Linked-zero h prev (x ∷ xs) l = ground (arith, Linked-zero h x xs l.4, l.0)

-- No block of the list is its own neighbour.
pub Linked-self :
    (h : Headers) (prev b : ℕ) (xs : List ℕ)
    → Linked h prev xs
    → NoDup xs
    → has prev xs ≡ false
    → has b xs ≡ true
    → ((h b).prev ≢ b) × ((h b).next ≢ b)
Linked-self h prev b [] l d out i = cc
Linked-self h prev b (x ∷ xs) l d out i = elim (Bool-cases (b == x)) [
  | inl t ↦
      let is : x ≡ b = ground arith in
      subst (λ c. ((h c).prev ≢ c) × ((h c).next ≢ c)) is
        (
          (λ e. has-apart x prev (x ∷ xs) (has_first x xs) out (sym e ∙ l.2)),
          (λ e.
              has-apart (head_of xs) x xs (head-has xs (λ z. l.0 (sym e ∙ l.3 ∙ z))) d.0
                (sym (l.3) ∙ e)),
        )
  | inr f ↦ Linked-self h x b xs l.4 d.1 d.0 (ground arith)
]
