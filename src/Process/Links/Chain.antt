-- ===== src/Process/Links/Chain.antt =====
-- A queue of processes holds a list of slots: its head, the `next` fields and its tail agree.
use claude_os_20day_challeng.Base.{
  ℕ, ◌<◌, ◌≡◌, ◌≢◌, refl, sym, ◌∙◌, ℕ_discrete, Option, none, some, List, [], ◌∷◌, ◌++◌, length,
  get_elem?, get_elem?-modify_self, get_elem?-modify_ne, get_elem?-of_lt, modify, arith,
}
use claude_os_20day_challeng.Process.Table.{Process}
use claude_os_20day_challeng.Process.Links.{
  Queue, set_next, link, rest, push_by_tail, push_by_head, pop,
}

-- From `p` on the `next` fields lead through just these slots.
abbrev pub Chain : List Process → Option ℕ → List ℕ → Type 0
Chain table p [] = p ≡ none
Chain table p (x ∷ xs) =
    (p ≡ some x) × (q : Process) × (get_elem? table x ≡ some q) × Chain table q.next xs

abbrev pub NotIn : ℕ → List ℕ → Type 0
NotIn i [] = Unit {0}
NotIn i (x ∷ xs) = (i ≢ x) × NotIn i xs

abbrev pub Distinct : List ℕ → Type 0
Distinct [] = Unit {0}
Distinct (x ∷ xs) = NotIn x xs × Distinct xs

abbrev pub last? : List ℕ → Option ℕ
last? [] = none
last? (x ∷ []) = some x
last? (x ∷ y ∷ xs) = last? (y ∷ xs)

pub record Holds (table : List Process) (q : Queue) (xs : List ℕ) : Type 0 where
  pub chain : Chain table q.head xs
  pub at_end : q.tail ≡ last? xs
  pub distinct : Distinct xs

-- A write to the `next` of a slot outside does not disturb the chain.
pub Chain-modify :
    (table : List Process) (p : Option ℕ) (xs : List ℕ) (i : ℕ) (f : Process → Process)
    → NotIn i xs
    → Chain table p xs
    → Chain (modify table i f) p xs
Chain-modify table p [] i f out c = c
Chain-modify table p (x ∷ xs) i f out c = (
  c.0,
  c.1,
  rw (get_elem?-modify_ne table i x f out.0) c.2,
  Chain-modify table c.1.next xs i f out.1 c.3,
)

-- A write that keeps every `next` keeps the chain.
pub Chain-modify_same_next :
    (table : List Process) (p : Option ℕ) (xs : List ℕ) (i : ℕ) (f : Process → Process)
    → ((q : Process) → (f q).next ≡ q.next)
    → Chain table p xs
    → Chain (modify table i f) p xs
Chain-modify_same_next table p [] i f same c = c
Chain-modify_same_next table p (x ∷ xs) i f same c = elim (ℕ_discrete i x) [
  | yes e ↦ (
    c.0,
    f c.1,
    rw (← e) (get_elem?-modify_self table i f c.1 (rw e c.2)),
    rw (same c.1) (Chain-modify_same_next table c.1.next xs i f same c.3),
  )
  | no n ↦ (
    c.0,
    c.1,
    rw (get_elem?-modify_ne table i x f n) c.2,
    Chain-modify_same_next table c.1.next xs i f same c.3,
  )
]

last?-NotIn : (x y : ℕ) (xs : List ℕ) (t : ℕ) → last? (y ∷ xs) ≡ some t → NotIn x (y ∷ xs) → x ≢ t
last?-NotIn x y [] t e out same = out.0 (ground arith)
last?-NotIn x y (z ∷ xs) t e out same = last?-NotIn x z xs t e out.1 same

-- Linking a slot that ends in NULL behind the last one extends the chain by it.
Chain-link :
    (table : List Process) (p : Option ℕ) (xs : List ℕ) (t i : ℕ) (qi : Process)
    → Chain table p xs
    → last? xs ≡ some t
    → Distinct xs
    → NotIn i xs
    → get_elem? table i ≡ some qi
    → qi.next ≡ none
    → Chain (modify table t (set_next (some i))) p (xs ++ i ∷ [])
unfolding set_next
Chain-link table p [] t i qi c e d out at end = cc
Chain-link table p (x ∷ []) t i qi c e d out at end =
    let same : x ≡ t = ground arith in
    (
      c.0,
      set_next (some i) c.1,
      rw (← same) (get_elem?-modify_self table x (set_next (some i)) c.1 c.2),
      (
        refl,
        qi,
        rw (get_elem?-modify_ne table t i (set_next (some i)) (λ h. out.0 (ground arith))) at,
        end,
      ),
    )
Chain-link table p (x ∷ y ∷ xs) t i qi c e d out at end =
    let differ = last?-NotIn x y xs t e d.0 in
    (
      c.0,
      c.1,
      rw (get_elem?-modify_ne table t x (set_next (some i)) (λ h. differ (sym h))) c.2,
      Chain-link table c.1.next (y ∷ xs) t i qi c.3 e d.1 out.1 at end,
    )

last?-append : (xs : List ℕ) (i : ℕ) → last? (xs ++ i ∷ []) ≡ some i
last?-append [] i = refl
last?-append (x ∷ []) i = refl
last?-append (x ∷ y ∷ xs) i = last?-append (y ∷ xs) i

NotIn-append : (x : ℕ) (xs : List ℕ) (i : ℕ) → x ≢ i → NotIn x xs → NotIn x (xs ++ i ∷ [])
NotIn-append x [] i h out = (h, tt)
NotIn-append x (y ∷ xs) i h out = (out.0, NotIn-append x xs i h out.1)

Distinct-append : (xs : List ℕ) (i : ℕ) → Distinct xs → NotIn i xs → Distinct (xs ++ i ∷ [])
Distinct-append [] i d out = (tt, tt)
Distinct-append (x ∷ xs) i d out =
    (NotIn-append x xs i (λ h. out.0 (sym h)) d.0, Distinct-append xs i d.1 out.1)

last?-some : (x : ℕ) (xs : List ℕ) → (t : ℕ) × (last? (x ∷ xs) ≡ some t)
last?-some x [] = (x, refl)
last?-some x (y ∷ xs) = last?-some y xs

module _ (table : List Process) (q : Queue) (i : ℕ) (inside : i < length table) where
  cut : List Process
  cut = modify table i (set_next none)

  cut-at : (p : Process) × (get_elem? cut i ≡ some p) × (p.next ≡ none)
  unfolding cut set_next
  cut-at =
      let r = get_elem?-of_lt table i inside in
      (set_next none r.0, get_elem?-modify_self table i (set_next none) r.0 r.1, refl)

  -- Appending a slot that is not queued puts it at the end, whichever end the code tests.
  pub push_by_tail-Holds :
      (xs : List ℕ)
      → Holds table q xs
      → NotIn i xs
      → Holds (push_by_tail table q i).0 (push_by_tail table q i).1 (xs ++ i ∷ [])
  unfolding push_by_tail cut
  push_by_tail-Holds [] h out =
      rw (h.at_end, push_by_tail)
        (record {
          chain = (refl, cut-at.0, cut-at.1, cut-at.2);
          at_end = refl;
          distinct = (tt, tt);
        })
  push_by_tail-Holds (x ∷ xs) h out =
      let t = last?-some x xs in
      rw (h.at_end ∙ t.1, push_by_tail)
        (record {
          chain =
              Chain-link cut q.head (x ∷ xs) t.0 i cut-at.0
                (Chain-modify table q.head (x ∷ xs) i (set_next none) out h.chain) t.1 h.distinct
                out cut-at.1 cut-at.2;
          at_end = sym (last?-append (x ∷ xs) i);
          distinct = Distinct-append (x ∷ xs) i h.distinct out;
        })

  pub push_by_head-Holds :
      (xs : List ℕ)
      → Holds table q xs
      → NotIn i xs
      → Holds (push_by_head table q i).0 (push_by_head table q i).1 (xs ++ i ∷ [])
  unfolding push_by_head link cut
  push_by_head-Holds [] h out =
      rw (h.chain, push_by_head)
        (record {
          chain = (refl, cut-at.0, cut-at.1, cut-at.2);
          at_end = refl;
          distinct = (tt, tt);
        })
  push_by_head-Holds (x ∷ xs) h out =
      let t = last?-some x xs in
      rw (h.chain.0, h.at_end ∙ t.1, push_by_head, link)
        (record {
          chain =
              Chain-link cut (some x) (x ∷ xs) t.0 i cut-at.0
                (Chain-modify table (some x) (x ∷ xs) i (set_next none) out
                  (refl, h.chain.1, h.chain.2, h.chain.3))
                t.1 h.distinct out cut-at.1 cut-at.2;
          at_end = sym (last?-append (x ∷ xs) i);
          distinct = Distinct-append (x ∷ xs) i h.distinct out;
        })

module _ (table : List Process) (q : Queue) where
  pub pop-empty : Holds table q [] → pop table q ≡ none
  unfolding pop
  pop-empty h = rw (h.chain, pop)

  -- Taking from a queue gives its first slot, and leaves the others in their order.
  pub pop-Holds :
      (x : ℕ) (xs : List ℕ)
      → Holds table q (x ∷ xs)
      → (q' : Queue) × (pop table q ≡ some (x, q')) × Holds table q' xs
  unfolding pop rest
  pop-Holds x [] h = (
    record { head = none; tail = none },
    rw (h.chain.0, h.chain.2, h.chain.3, pop),
    record { chain = refl; at_end = refl; distinct = tt },
  )
  pop-Holds x (y ∷ xs) h = (
    record { head = some y; tail = q.tail },
    rw (h.chain.0, h.chain.2, h.chain.3.0, pop),
    record {
      chain = (refl, h.chain.3.1, h.chain.3.2, h.chain.3.3);
      at_end = h.at_end;
      distinct = h.distinct.1;
    },
  )
