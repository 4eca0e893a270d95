-- ===== src/MemFs/Search.antt =====
-- The search by a part of the name in fs/memfs_simple.c.
use claude_os_20day_challeng.Base.{
  ℕ, ◌<◌, ◌≡◌, ◌≢◌, refl, ap, ◌↔◌, true, some, List, [], ◌∷◌, ◌++◌, length, get_elem?, find_index,
  count_if, arith, find_index-some, find_index-none_count, count_if-zero, Option-cases, Bool-cases,
  inl, inr,
}
use claude_os_20day_challeng.MemFs.{File, MemFs, success}
use claude_os_20day_challeng.MemFs.Manage.{find, matches}
use claude_os_20day_challeng.MemFs.Text.{starts, occurs}

starts-append :
    (name text : List ℕ) → starts name text ≡ true → (post : List ℕ) × (text ≡ name ++ post)
unfolding starts
starts-append [] text h = (text, refl)
starts-append (x ∷ xs) [] h = cc
starts-append (x ∷ xs) (y ∷ ys) h =
    let same : x ≡ y = ground arith in
    let r = starts-append xs ys (ground arith) in (r.0, rw (same, r.1) refl)

append-starts : (name post : List ℕ) → starts name (name ++ post) ≡ true
unfolding starts
append-starts [] post = refl
append-starts (x ∷ xs) post = ground (arith, append-starts xs post)

-- The substring search finds exactly the names that occur in the text.
occurs-split :
    (name text : List ℕ)
    → occurs name text ≡ true
    → (pre : List ℕ) × (post : List ℕ) × (text ≡ pre ++ name ++ post)
unfolding occurs
occurs-split name [] h = let r = starts-append name [] h in ([], r.0, r.1)
occurs-split name (y ∷ ys) h = elim (Bool-cases (starts name (y ∷ ys))) [
  | inl here ↦ let r = starts-append name (y ∷ ys) here in ([], r.0, r.1)
  | inr later ↦ let r = occurs-split name ys (ground arith) in (y ∷ r.0, r.1, ap (◌∷◌ y) r.2)
]

starts-occurs : (name text : List ℕ) → starts name text ≡ true → occurs name text ≡ true
unfolding occurs
starts-occurs name [] h = h
starts-occurs name (y ∷ ys) h = rw h refl

split-occurs : (name pre post : List ℕ) → occurs name (pre ++ name ++ post) ≡ true
unfolding occurs
split-occurs name [] post = starts-occurs name (name ++ post) (append-starts name post)
split-occurs name (y ∷ pre) post = ground (arith, split-occurs name pre post)

found_some :
    (name : List ℕ) (s : MemFs)
    → 0 < count_if (matches name) s.file_table
    → (j : ℕ) × (f : File) × (pre : List ℕ) × (post : List ℕ) × (get_elem? s.file_table j ≡ some f)
      × (f.in_use ≡ true)
      × (f.name ≡ pre ++ name ++ post)
found_some name s pos = elim (Option-cases (find_index (matches name) s.file_table)) [
  | inl absent ↦ absurd (omega (arith, find_index-none_count (matches name) s.file_table absent))
  | inr (j, found) ↦
      let (f, at_j, test) = find_index-some (matches name) s.file_table j found in
      let inside : occurs name f.name ≡ true = ground arith in
      let (pre, post, is) = occurs-split name f.name inside in
      (j, f, pre, post, at_j, ground arith, is)
]

some_found :
    (name : List ℕ) (s : MemFs) (j : ℕ) (f : File) (pre post : List ℕ)
    → get_elem? s.file_table j ≡ some f
    → f.in_use ≡ true
    → f.name ≡ pre ++ name ++ post
    → count_if (matches name) s.file_table ≢ 0
some_found name s j f pre post at_j used is zero_found =
    let fails = count_if-zero (matches name) s.file_table j f zero_found at_j in
    let inside : occurs name f.name ≡ true = rw is (split-occurs name pre post) in
    absurd (ground arith)

-- memfs_simple_find, for a name that is not empty, succeeds exactly if the name occurs in the name of
-- some file or directory, in any directory.
pub find_lem :
    (name : List ℕ) (s : MemFs)
    → 0 < length name
    → (find (some name) s ≡ success) ↔ (
        (j : ℕ) × (f : File) × (pre : List ℕ) × (post : List ℕ) × (get_elem? s.file_table j
          ≡ some f)
        × (f.in_use ≡ true)
        × (f.name ≡ pre ++ name ++ post))
unfolding find
find_lem name s pos = (
  (λ e. found_some name s (ground arith)),
  (λ (j, f, pre, post, at_j, used, is).
      let positive = some_found name s j f pre post at_j used is in ground arith),
)
