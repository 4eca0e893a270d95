-- ===== src/Heap/Coalesce.antt =====
-- The walk of `heap_coalesce_free_blocks` of kernel/heap.c over the free list.
use claude_os_20day_challeng.Base.{
  ℕ, zero, suc, ◌+◌, ◌^◌, ◌<◌, ◌≡◌, ◌≢◌, refl, sym, ap, subst, ◌∙◌, Bool, true, false, ◌||◌, Option,
  some, List, [], ◌∷◌, length, ◌==◌, add32, Bool-cases, inl, inr, arith,
}
use claude_os_20day_challeng.Heap.{Header, Headers, header_size, coalesce}
use claude_os_20day_challeng.Heap.FreeList.{
  has, head_of, NoDup, Linked, has-apart, has_first, has_later, head-has,
}
use claude_os_20day_challeng.Heap.Release.{
  merge, merge-away, merge-Linked, merge-Spaced, second_next, Spaced,
}

-- What the walk from `x` on leaves: a shorter list from `x`, with every other block as it was.
pub record Merged (h : Headers) (end prev x : ℕ) (xs : List ℕ) (rest : ℕ → Bool)
    (result : Option Headers) : Type 0 where
  pub headers : Headers
  pub list : List ℕ
  pub returns : result ≡ some headers
  pub linked : Linked headers prev (x ∷ list)
  pub no_dup : NoDup (x ∷ list)
  pub sub_list : (a : ℕ) → has a (x ∷ list) ≡ true → has a (x ∷ xs) ≡ true
  pub untouched : (a : ℕ) → a ≢ 0 → has a (x ∷ xs) ≡ false → headers a ≡ h a
  pub spaced : Spaced headers end (λ a. has a (x ∷ list) || rest a)

Spaced-sub :
    (h : Headers) (end : ℕ) (p q : ℕ → Bool)
    → Spaced h end p
    → ((a : ℕ) → q a ≡ true → p a ≡ true)
    → Spaced h end q
Spaced-sub h end p q sp sub = record {
  in_heap = λ a i. sp.in_heap a (sub a i);
  apart = λ a c i j ne. sp.apart a c (sub a i) (sub c j) ne;
}

differs : (a b : ℕ) → a ≢ b → (a == b) ≡ false
differs a b ne = ground arith

coalesce-last : (h : Headers) (fuel x : ℕ) → (h x).next ≡ 0 → coalesce (suc fuel) x h ≡ some h
unfolding coalesce
coalesce-last h fuel x last = ground (arith, last)

coalesce-merge :
    (h : Headers) (fuel x : ℕ)
    → x ≢ 0
    → (h x).next ≢ 0
    → (h (h x).next).is_free ≡ true
    → (add32 x (header_size + (h x).size) == (h x).next) ≡ true
    → coalesce (suc fuel) x h ≡ coalesce fuel x (merge x h)
unfolding coalesce
coalesce-merge h fuel x nx nn free meets =
    rw (differs x 0 nx, differs (h x).next 0 nn, meets, free) refl

coalesce-move :
    (h : Headers) (fuel x : ℕ)
    → x ≢ 0
    → (h x).next ≢ 0
    → (add32 x (header_size + (h x).size) == (h x).next) ≡ false
    → coalesce (suc fuel) x h ≡ coalesce fuel (h x).next h
unfolding coalesce
coalesce-move h fuel x nx nn gap = rw (differs x 0 nx, differs (h x).next 0 nn, gap) refl

merge_out :
    (h : Headers) (x a : ℕ) (xs : List ℕ)
    → (h (h x).next).next ≡ head_of xs
    → a ≢ 0
    → a ≢ x
    → has a xs ≡ false
    → merge x h a ≡ h a
merge_out h x a xs second not_null nx out = merge-away h x a nx (λ e.
    has-apart (head_of xs) a xs (head-has xs (λ z. not_null (e ∙ second ∙ z))) out
      (sym (e ∙ second)))

unmoved : (a x : ℕ) (xs : List ℕ) → has a (x ∷ xs) ≡ false → (a ≢ x) × (has a xs ≡ false)
unmoved a x xs out = (ground arith, ground arith)

other_block :
    (x y a : ℕ) (ys : List ℕ) (rest : ℕ → Bool)
    → NoDup (x ∷ y ∷ ys)
    → rest y ≡ false
    → (has a (x ∷ ys) || rest a) ≡ true
    → ((has a (x ∷ y ∷ ys) || rest a) ≡ true) × (a ≢ y)
other_block x y a ys rest d out i = (
  ground arith,
  λ e.
      let i' : (has y (x ∷ ys) || rest y) ≡ true =
        subst (λ c. (has c (x ∷ ys) || rest c) ≡ true) e i in
      let y_x = has-apart y x (y ∷ ys) (has_first y ys) d.0 in ground (arith, i', y_x, d.1.0, out),
)

-- The block that is stepped over joins the others.
with_first :
    (x y a : ℕ) (ys : List ℕ) (rest : ℕ → Bool)
    → (has a (y ∷ ys) || (rest a || (a == x))) ≡ true
    → (has a (x ∷ y ∷ ys) || rest a) ≡ true
with_first x y a ys rest i = ground arith

first_with :
    (x a : ℕ) (zs : List ℕ) (rest : ℕ → Bool)
    → (has a (x ∷ zs) || rest a) ≡ true
    → (has a zs || (rest a || (a == x))) ≡ true
first_with x a zs rest i = ground arith

not_first :
    (x a : ℕ) (zs : List ℕ) (rest : ℕ → Bool)
    → has x zs ≡ false
    → rest a ≡ false
    → has a zs ≡ true
    → (rest a || (a == x)) ≡ false
not_first x a zs rest out none_of i = ground (arith, has-apart a x zs i out)

longer_sub :
    (x a : ℕ) (zs ys : List ℕ)
    → (has a zs ≡ true → has a ys ≡ true)
    → has a (x ∷ zs) ≡ true
    → has a (x ∷ ys) ≡ true
longer_sub x a zs ys sub i = elim (Bool-cases (a == x)) [
  | inl t ↦ rw t refl
  | inr f ↦ has_later a x ys (sub (ground arith))
]

reached : {a b : ℕ} → (a == b) ≡ true → a ≡ b
reached t = ground arith

not_in : (a x : ℕ) (xs : List ℕ) → a ≢ x → has a xs ≡ false → has a (x ∷ xs) ≡ false
not_in a x xs nx out = ground (arith, nx, out)

fewer :
    (x : ℕ) (zs ys : List ℕ)
    → (has x zs ≡ true → has x ys ≡ true)
    → has x ys ≡ false
    → has x zs ≡ false
fewer x zs ys sub out = ground (arith, sub)

-- The walk ends, and keeps the list linked and the blocks in the heap and apart.
pub coalesce-Merged :
    (fuel : ℕ) (h : Headers) (end prev x : ℕ) (xs : List ℕ) (rest : ℕ → Bool)
    → end < 2 ^ 31
    → length xs < fuel
    → Linked h prev (x ∷ xs)
    → NoDup (x ∷ xs)
    → Spaced h end (λ a. has a (x ∷ xs) || rest a)
    → ((a : ℕ) → has a (x ∷ xs) ≡ true → rest a ≡ false)
    → Merged h end prev x xs rest (coalesce fuel x h)
coalesce-Merged zero h end prev x xs rest small enough l d sp ex = absurd (omega arith)
coalesce-Merged (suc fuel) h end prev x [] rest small enough l d sp ex = record {
  headers = h;
  list = [];
  returns = coalesce-last h fuel x (l.3);
  linked = l;
  no_dup = d;
  sub_list = λ a i. i;
  untouched = λ a nz out. refl;
  spaced = sp;
}
coalesce-Merged (suc fuel) h end prev x (y ∷ ys) rest small enough l d sp ex =
    elim (Bool-cases (add32 x (header_size + (h x).size) == y)) [
      | inl meets ↦
          let far = merge-Linked h prev x y ys l d in
          let more : (h x).next ≢ 0 = λ e. l.4.0 (sym (l.3) ∙ e) in
          let free : (h (h x).next).is_free ≡ true =
            subst (λ c. (h c).is_free ≡ true) (sym (l.3)) (l.4.1) in
          let meets' : (add32 x (header_size + (h x).size) == (h x).next) ≡ true =
            subst (λ c. (add32 x (header_size + (h x).size) == c) ≡ true) (sym (l.3)) meets in
          let here : add32 x (header_size + (h x).size) ≡ y = reached meets in
          let out = ex y (has_later y x (y ∷ ys) (has_first y ys)) in
          let second = second_next h prev x y ys l d in
          let walk =
            coalesce-Merged fuel (merge x h) end prev x ys rest small (omega arith) far.1
              ((unmoved x y ys d.0).1, d.1.1)
              (merge-Spaced h end x y (λ a. has a (x ∷ y ∷ ys) || rest a)
                (λ a. has a (x ∷ ys) || rest a) small sp (rw (has_first x (y ∷ ys)) refl)
                (rw (has_later y x (y ∷ ys) (has_first y ys)) refl)
                (λ e. has-apart y x (y ∷ ys) (has_first y ys) d.0 (sym e)) here far.0
                (λ a i. other_block x y a ys rest d out i))
              (λ a i. ex a (longer_sub x a ys (y ∷ ys) (has_later a y ys) i)) in
          record {
            headers = walk.headers;
            list = walk.list;
            returns = coalesce-merge h fuel x l.0 more free meets' ∙ walk.returns;
            linked = walk.linked;
            no_dup = walk.no_dup;
            sub_list = λ a i. longer_sub x a ys (y ∷ ys) (has_later a y ys) (walk.sub_list a i);
            untouched = λ a nz o.
                let (nx, o1) = unmoved a x (y ∷ ys) o in
                let (ny, o2) = unmoved a y ys o1 in
                walk.untouched a nz (not_in a x ys nx o2) ∙ merge_out h x a ys second.0 nz nx o2;
            spaced = walk.spaced;
          }
      | inr gap ↦
          let more : (h x).next ≢ 0 = λ e. l.4.0 (sym (l.3) ∙ e) in
          let gap' : (add32 x (header_size + (h x).size) == (h x).next) ≡ false =
            subst (λ c. (add32 x (header_size + (h x).size) == c) ≡ false) (sym (l.3)) gap in
          let walk =
            coalesce-Merged fuel h end x y ys (λ a. rest a || (a == x)) small (omega arith) l.4 d.1
              (Spaced-sub h end (λ a. has a (x ∷ y ∷ ys) || rest a)
                (λ a. has a (y ∷ ys) || (rest a || (a == x))) sp
                (λ a i. with_first x y a ys rest i))
              (λ a i. not_first x a (y ∷ ys) rest d.0 (ex a (has_later a x (y ∷ ys) i)) i) in
          let same : walk.headers x ≡ h x = walk.untouched x l.0 d.0 in
          record {
            headers = walk.headers;
            list = y ∷ walk.list;
            returns =
                coalesce-move h fuel x l.0 more gap'
                ∙ ap (λ c. coalesce fuel c h) (l.3)
                ∙ walk.returns;
            linked = (
              l.0,
              ap (λ (c : Header). c.is_free) same ∙ l.1,
              ap (λ (c : Header). c.prev) same ∙ l.2,
              ap (λ (c : Header). c.next) same ∙ l.3,
              walk.linked,
            );
            no_dup = (fewer x (y ∷ walk.list) (y ∷ ys) (walk.sub_list x) d.0, walk.no_dup);
            sub_list = λ a i. longer_sub x a (y ∷ walk.list) (y ∷ ys) (walk.sub_list a) i;
            untouched = λ a nz o. walk.untouched a nz (unmoved a x (y ∷ ys) o).1;
            spaced =
                Spaced-sub walk.headers end (λ a. has a (y ∷ walk.list) || (rest a || (a == x)))
                  (λ a. has a (x ∷ y ∷ walk.list) || rest a) walk.spaced
                  (λ a i. first_with x a (y ∷ walk.list) rest i);
          }
    ]
