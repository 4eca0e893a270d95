-- ===== src/MemFs/Removal.antt =====
-- What delete and rmdir of fs/memfs_simple.c remove, and what later lookups find.
use claude_os_20day_challeng.Base.{
  ℕ, ◌≡◌, ◌≢◌, refl, sym, ◌∙◌, Bool, true, false, ◌&&◌, none, some, List, [], ◌∷◌, get_elem?,
  get_or, modify, find_index, ◌==◌, arith, find_index-some, find_index-none, find_index_fails,
  get_elem?-modify, get_or-of_get_elem?, Option-cases, Bool-cases, inl, inr, ◌⊎◌,
}
use claude_os_20day_challeng.MemFs.{
  File, MemFs, cleared, is_named, find_in_dir, find_file, delete, rmdir, clear_slot, has_child,
  success, type_dir,
}
use claude_os_20day_challeng.MemFs.Text.{simple_strcmp, simple_strcmp-eq, IsText}

-- Names are unique in each directory, and are C strings.
pub record UniqueNames (s : MemFs) : Type 0 where
  pub same_slot :
      (i j : ℕ) (f g : File)
      → get_elem? s.file_table i ≡ some f
      → get_elem? s.file_table j ≡ some g
      → f.in_use ≡ true
      → g.in_use ≡ true
      → f.parent_id ≡ g.parent_id
      → f.name ≡ g.name
      → i ≡ j
  pub are_texts :
      (i : ℕ) (f : File) → get_elem? s.file_table i ≡ some f → f.in_use ≡ true → IsText f.name

-- What `is_named` tests.
is_named-eq :
    (name : List ℕ) (parent : ℕ) (f : File)
    → IsText name
    → IsText f.name
    → is_named name parent f ≡ true
    → (f.in_use ≡ true) × (f.parent_id ≡ parent) × (f.name ≡ name)
is_named-eq name parent f tn tf h =
    let same : simple_strcmp f.name name ≡ 0 = ground arith in
    (ground arith, ground arith, simple_strcmp-eq f.name name tf tn same)

named_in_use :
    (name : List ℕ) (parent : ℕ) (f : File) → is_named name parent f ≡ true → f.in_use ≡ true
named_in_use name parent f h = ground arith

-- Once the slot found is cleared, the lookup finds nothing.
find_in_dir-cleared :
    (name : List ℕ) (parent i : ℕ) (s : MemFs)
    → UniqueNames s
    → IsText name
    → find_in_dir name parent s.file_table ≡ some i
    → find_in_dir name parent (clear_slot i s).file_table ≡ none
unfolding find_in_dir clear_slot
find_in_dir-cleared name parent i s unique tn found =
    let test = is_named name parent in
    let (f, at_i, named) = find_index-some test s.file_table i found in
    let f_used = named_in_use name parent f named in
    let f_is = is_named-eq name parent f tn (unique.are_texts i f at_i f_used) named in
    find_index_fails test (modify s.file_table i (λ _. cleared)) (λ j b e.
      elim (Bool-cases (test b)) [
        | inr fails ↦ fails
        | inl passes ↦ elim (get_elem?-modify s.file_table i j (λ _. cleared) b e) [
          | inl (same, a, old, is) ↦ rw is refl
          | inr (ne, at_j) ↦
              let b_used = named_in_use name parent b passes in
              let b_is = is_named-eq name parent b tn (unique.are_texts j b at_j b_used) passes in
              absurd (
                ne (
                  unique.same_slot i j f b at_i at_j f_used b_used (f_is.1 ∙ sym b_is.1)
                    (f_is.2 ∙ sym b_is.2)))
        ]
      ])

find_file-cleared :
    (name : List ℕ) (s : MemFs) (i : ℕ)
    → UniqueNames s
    → IsText name
    → find_file name s ≡ some i
    → find_file name (clear_slot i s) ≡ none
unfolding find_file clear_slot
find_file-cleared [] s i unique tn found =
    find_in_dir-cleared [] s.current_dir_id i s unique tn found
find_file-cleared (c ∷ name) s i unique tn found = elim (Bool-cases (c == b'/')) [
  | inl root ↦
      let found' : find_in_dir name 0 s.file_table ≡ some i = ground arith in
      rw root (find_in_dir-cleared name 0 i s unique tn.2 found')
  | inr here ↦
      let found' : find_in_dir (c ∷ name) s.current_dir_id s.file_table ≡ some i = ground arith in
      rw here (find_in_dir-cleared (c ∷ name) s.current_dir_id i s unique tn found')
]

pub delete_found :
    (name : List ℕ) (s : MemFs) (i : ℕ)
    → find_file name s ≡ some i
    → delete (some name) s ≡ (success, clear_slot i s)
unfolding delete
delete_found name s i found = rw (found, delete) refl

-- Where names are unique, deleting a name that is found succeeds, and a lookup of the name then finds
-- nothing.
pub find_file-delete :
    (name : List ℕ) (s : MemFs) (i : ℕ)
    → UniqueNames s
    → IsText name
    → find_file name s ≡ some i
    → let (r, s') = delete (some name) s in (r ≡ success) × (find_file name s' ≡ none)
find_file-delete name s i unique tn found =
    rw (delete_found name s i found) (refl, find_file-cleared name s i unique tn found)

rmdir-cases :
    (name : List ℕ) (s : MemFs)
    → (((rmdir (some name) s).1 ≡ s) × ((rmdir (some name) s).0 ≢ success))
      ⊎ ((i : ℕ) × (find_file name s ≡ some i)
          × ((get_or s.file_table i cleared).type ≡ type_dir)
          × (has_child (get_or s.file_table i cleared).id s.file_table ≡ false)
          × (rmdir (some name) s ≡ (success, clear_slot i s)))
unfolding rmdir
rmdir-cases name s = elim (Option-cases (find_file name s)) [
  | inl absent ↦ inl (rw (absent, rmdir) refl, rw (absent, rmdir) (λ e. omega arith))
  | inr (i, found) ↦
      let f = get_or s.file_table i cleared in
      elim (Bool-cases (f.type == type_dir)) [
        | inr file ↦ inl (rw (found, file, rmdir) refl, rw (found, file, rmdir) (λ e. omega arith))
        | inl dir ↦ elim (Bool-cases (has_child f.id s.file_table)) [
          | inl full ↦
              inl
                (rw (found, dir, full, rmdir) refl, rw (found, dir, full, rmdir) (λ e. omega arith))
          | inr empty ↦ inr (i, found, ground arith, empty, rw (found, dir, empty, rmdir) refl)
        ]
      ]
]

has_child-none :
    (id : ℕ) (table : List File) (j : ℕ) (g : File)
    → has_child id table ≡ false
    → get_elem? table j ≡ some g
    → g.in_use ≡ true
    → g.parent_id ≢ id
unfolding has_child
has_child-none id table j g none_found at_j used child =
    let test : File → Bool = λ f. f.in_use && f.parent_id == id in
    elim (Option-cases (find_index test table)) [
      | inl absent ↦ let fails = find_index-none test table j g absent at_j in absurd (ground arith)
      | inr found ↦ absurd (ground (arith, found.1))
    ]

pub find_file-slot :
    (name : List ℕ) (s : MemFs) (i : ℕ)
    → find_file name s ≡ some i
    → (f : File) × (get_elem? s.file_table i ≡ some f)
unfolding find_file find_in_dir
find_file-slot [] s i found = let r = find_index-some _ s.file_table i found in (r.0, r.1)
find_file-slot (c ∷ name) s i found = elim (Bool-cases (c == b'/')) [
  | inl root ↦
      let found' : find_in_dir name 0 s.file_table ≡ some i = ground arith in
      let r = find_index-some _ s.file_table i found' in (r.0, r.1)
  | inr here ↦
      let found' : find_in_dir (c ∷ name) s.current_dir_id s.file_table ≡ some i = ground arith in
      let r = find_index-some _ s.file_table i found' in (r.0, r.1)
]

-- If rmdir succeeds, the entry found is a directory, no entry has it as its parent, and the slot is
-- cleared; otherwise the file system is as it was.
pub rmdir-Empty :
    (name : List ℕ) (s : MemFs)
    → let (r, s') = rmdir (some name) s in
      ((r ≡ success)
        → (i : ℕ) × (f : File) × (find_file name s ≡ some i)
          × (get_elem? s.file_table i ≡ some f)
          × (f.type ≡ type_dir)
          × ((j : ℕ) (g : File)
              → get_elem? s.file_table j ≡ some g
              → g.in_use ≡ true
              → g.parent_id ≢ f.id)
          × (s'.file_table ≡ modify s.file_table i (λ _. cleared)))
      × ((r ≢ success) → s' ≡ s)
unfolding find_file find_in_dir clear_slot
rmdir-Empty name s = elim (rmdir-cases name s) [
  | inl same ↦ ((λ e. absurd (same.1 e)), (λ _. same.0))
  | inr (i, found, dir, empty, e) ↦
      let f = find_file-slot name s i found in
      let is = get_or-of_get_elem? s.file_table i f.0 cleared f.1 in
      rw e (
        (λ _. (
          i,
          f.0,
          found,
          f.1,
          rw (← is) dir,
          (λ j g at_j used. rw (← is) (has_child-none _ s.file_table j g empty at_j used)),
          refl,
        )),
        (λ ne. absurd (ne refl)),
      )
]
