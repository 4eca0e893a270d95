-- ===== src/MemFs/Lookup.antt =====
-- Names and slots: what create and mkdir of fs/memfs_simple.c do to later lookups.
use claude_os_20day_challeng.Base.{
  ℕ, ◌+◌, ◌<◌, ◌≡◌, ◌≢◌, refl, sym, ◌∙◌, true, false, not, none, some, List, [], ◌∷◌, get_elem?,
  modify, length, count_if, ◌==◌, add32, if◌then◌else◌, arith, find_index-some,
  find_index-modify_new, count_if-modify, get_elem?-modify_self, get_elem?-modify_ne, Option-cases,
  Bool-cases, inl, inr, ◌⊎◌,
}
use claude_os_20day_challeng.MemFs.{
  File, MemFs, is_named, find_in_dir, find_file, find_free_slot, new_file, make, get_stats, success,
  max_filename,
}
use claude_os_20day_challeng.MemFs.Text.{simple_strcmp_self, simple_strcpy, IsText, take_all}

-- A name that the table can hold as it is: a C string that is not empty, fits with its NUL, and is
-- not an absolute path.
abbrev pub IsPlain : List ℕ → Type 0
IsPlain [] = ⊥
IsPlain (c ∷ name) = IsText (c ∷ name) × (c ≢ b'/') × (length (c ∷ name) < max_filename)

pub find_file_plain :
    (name : List ℕ) (s : MemFs)
    → IsPlain name
    → find_file name s ≡ find_in_dir name s.current_dir_id s.file_table
unfolding find_file
find_file_plain [] s h = absurd h
find_file_plain (c ∷ name) s h = ground (arith, h.1)

plain-length : (name : List ℕ) → IsPlain name → 0 < length name
plain-length [] h = absurd h
plain-length (c ∷ name) h = omega arith

pub stored_plain : (name : List ℕ) → IsPlain name → simple_strcpy name max_filename ≡ name
stored_plain [] h = absurd h
stored_plain (c ∷ name) h = take_all 31 (c ∷ name) (omega (arith, h.2))

pub new_file-is_named :
    (kind : ℕ) (name : List ℕ) (id parent now : ℕ)
    → IsPlain name
    → is_named name parent (new_file kind name id parent now) ≡ true
unfolding new_file
new_file-is_named kind name id parent now h =
    rw (stored_plain name h, simple_strcmp_self name) ground arith

-- The state that a successful `make` leaves.
abbrev pub made : ℕ → List ℕ → ℕ → MemFs → MemFs
made kind name i s = record s {
  file_table =
      modify s.file_table i
        (λ _. new_file kind name s.next_file_id s.current_dir_id (add32 s.time_counter 1));
  next_file_id = add32 s.next_file_id 1;
  time_counter = add32 s.time_counter 1;
}

-- What `make` does, by cases.
pub make-cases :
    (kind : ℕ) (name : List ℕ) (s : MemFs)
    → ((make kind (some name) s).1 ≡ s × ((make kind (some name) s).0 ≢ success))
      ⊎ ((i : ℕ) × (find_file name s ≡ none)
          × (find_free_slot s ≡ some i)
          × (make kind (some name) s ≡ (success, made kind name i s)))
unfolding make
make-cases kind name s = elim (Bool-cases (length name == 0)) [
  | inl t ↦ inl (ground arith, ground arith)
  | inr f ↦ elim (Option-cases (find_file name s)) [
    | inr found ↦ inl (ground (arith, found.1), ground (arith, found.1))
    | inl absent ↦ elim (Option-cases (find_free_slot s)) [
      | inl full ↦ inl (ground arith, ground arith)
      | inr free ↦ inr (free.0, absent, free.1, ground (arith, free.1))
    ]
  ]
]

make-success :
    (kind : ℕ) (name : List ℕ) (s : MemFs) (i : ℕ)
    → 0 < length name
    → find_file name s ≡ none
    → find_free_slot s ≡ some i
    → make kind (some name) s ≡ (success, made kind name i s)
unfolding make
make-success kind name s i long absent free = ground arith

-- The free slot found.
free_slot :
    (s : MemFs) (i : ℕ)
    → find_free_slot s ≡ some i
    → (old : File) × (get_elem? s.file_table i ≡ some old) × (old.in_use ≡ false)
unfolding find_free_slot
free_slot s i free =
    let (old, e, test) = find_index-some (λ f. not f.in_use) s.file_table i free in
    (old, e, ground arith)

find_file-made :
    (kind : ℕ) (name : List ℕ) (s : MemFs) (i : ℕ) (old : File)
    → IsPlain name
    → find_file name s ≡ none
    → get_elem? s.file_table i ≡ some old
    → find_file name (made kind name i s) ≡ some i
unfolding find_in_dir
find_file-made kind name s i old plain absent e =
    let before = sym (find_file_plain name s plain) ∙ absent in
    find_file_plain name (made kind name i s) plain
    ∙ find_index-modify_new (is_named name s.current_dir_id) s.file_table i _ old before e
        (new_file-is_named kind name s.next_file_id s.current_dir_id (add32 s.time_counter 1) plain)

-- For a plain name, which has 1 to 31 bytes and no leading slash, that is not there, and a table with
-- a free slot, creating a file or directory succeeds: the next lookup of the name finds the slot, which was free and now holds an entry of
-- that type and size 0 under that name in the current directory, and the other slots are unchanged.
pub find_file-make :
    (kind : ℕ) (name : List ℕ) (s : MemFs) (i : ℕ)
    → IsPlain name
    → find_file name s ≡ none
    → find_free_slot s ≡ some i
    → let (r, s') = make kind (some name) s in
      (r ≡ success)
      × (find_file name s' ≡ some i)
      × ((old : File) × (get_elem? s.file_table i ≡ some old) × (old.in_use ≡ false))
      × ((f : File) × (get_elem? s'.file_table i ≡ some f)
          × (f.name ≡ name)
          × (f.type ≡ kind)
          × (f.size ≡ 0)
          × (f.parent_id ≡ s.current_dir_id))
      × ((j : ℕ) → i ≢ j → get_elem? s'.file_table j ≡ get_elem? s.file_table j)
unfolding new_file
find_file-make kind name s i plain absent free =
    let (old, e, unused) = free_slot s i free in
    rw (make-success kind name s i (plain-length name plain) absent free) (
      refl,
      find_file-made kind name s i old plain absent e,
      (old, e, unused),
      (_, get_elem?-modify_self s.file_table i _ old e, stored_plain name plain, refl, refl, refl),
      (λ j ne. get_elem?-modify_ne s.file_table i j _ ne),
    )

count_in_use-fresh :
    (table : List File) (i : ℕ) (f old : File)
    → get_elem? table i ≡ some old
    → old.in_use ≡ false
    → f.in_use ≡ true
    → count_if (λ g. g.in_use) (modify table i (λ _. f)) ≡ count_if (λ g. g.in_use) table + 1
count_in_use-fresh table i f old e unused used =
    let count = count_if-modify (λ g. g.in_use) table i (λ _. f) old e in
    let was : ◌≡◌ {A = ℕ} (if old.in_use then 1 else 0) 0 = rw unused refl in
    let is : ◌≡◌ {A = ℕ} (if f.in_use then 1 else 0) 1 = rw used refl in
    omega (arith, count, was, is)

-- Creating a file or directory adds one to the number of files that the statistics give if it
-- succeeds, and otherwise leaves the file system as it was.
pub get_stats-make :
    (kind : ℕ) (name : List ℕ) (s : MemFs)
    → let (r, s') = make kind (some name) s in
      ((r ≡ success) → (get_stats s').total_files ≡ (get_stats s).total_files + 1)
      × ((r ≢ success) → s' ≡ s)
unfolding get_stats new_file
get_stats-make kind name s = elim (make-cases kind name s) [
  | inl same ↦ ((λ e. absurd (same.1 e)), (λ _. same.0))
  | inr (i, absent, free, e) ↦
      let (old, at_i, unused) = free_slot s i free in
      rw e
        ((λ _. count_in_use-fresh s.file_table i _ old at_i unused refl), (λ ne. absurd (ne refl)))
]
