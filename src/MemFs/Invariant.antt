-- ===== src/MemFs/Invariant.antt =====
-- Unique names in fs/memfs_simple.c: create, mkdir, delete and write keep them.
use claude_os_20day_challeng.Base.{
  ℕ, ◌≡◌, ◌≢◌, refl, sym, ap, subst, ◌∙◌, true, none, some, List, [], ◌∷◌, get_elem?, modify, arith,
  find_index-none, get_elem?-modify, Option-cases, inl, inr,
}
use claude_os_20day_challeng.MemFs.{
  File, MemFs, cleared, is_named, find_in_dir, find_file, new_file, make, delete, clear_slot,
  not_found,
}
use claude_os_20day_challeng.MemFs.Text.{simple_strcmp_self, IsText}
use claude_os_20day_challeng.MemFs.Lookup.{IsPlain, find_file_plain, stored_plain, make-cases, made}
use claude_os_20day_challeng.MemFs.Removal.{UniqueNames, delete_found}

-- A slot whose name stands in the directory is found by it.
is_named_self :
    (f : File) (name : List ℕ) (parent : ℕ)
    → f.in_use ≡ true
    → f.parent_id ≡ parent
    → f.name ≡ name
    → is_named name parent f ≡ true
is_named_self f name parent used dir is = rw (used, dir, is, simple_strcmp_self name) ground arith

-- An entry other than those of the directory that have the name.
fresh_name :
    (name : List ℕ) (s : MemFs) (j : ℕ) (g : File)
    → IsPlain name
    → find_file name s ≡ none
    → get_elem? s.file_table j ≡ some g
    → g.in_use ≡ true
    → g.parent_id ≡ s.current_dir_id
    → g.name ≢ name
unfolding find_in_dir
fresh_name name s j g plain absent at_j used dir is =
    let absent' = sym (find_file_plain name s plain) ∙ absent in
    let fails = find_index-none (is_named name s.current_dir_id) s.file_table j g absent' at_j in
    let passes = is_named_self g name s.current_dir_id used dir is in absurd (ground arith)

plain-IsText : (name : List ℕ) → IsPlain name → IsText name
plain-IsText [] h = absurd h
plain-IsText (c ∷ name) h = h.0

made-Unique :
    (kind : ℕ) (name : List ℕ) (s : MemFs) (i : ℕ)
    → UniqueNames s
    → IsPlain name
    → find_file name s ≡ none
    → UniqueNames (made kind name i s)
unfolding new_file
made-Unique kind name s i unique plain absent = record {
  same_slot = λ j k f g at_j at_k f_used g_used dirs names.
      elim (get_elem?-modify s.file_table i j _ f at_j) [
        | inl (here, a, a_at, f_is) ↦ elim (get_elem?-modify s.file_table i k _ g at_k) [
          | inl (there, b, b_at, g_is) ↦ sym here ∙ there
          | inr (apart, g_at) ↦ absurd (
              fresh_name name s k g plain absent g_at g_used
                (sym dirs ∙ ap (λ (x : File). x.parent_id) f_is)
                (sym names ∙ ap (λ (x : File). x.name) f_is ∙ stored_plain name plain))
        ]
        | inr (apart, f_at) ↦ elim (get_elem?-modify s.file_table i k _ g at_k) [
          | inl (there, b, b_at, g_is) ↦ absurd (
              fresh_name name s j f plain absent f_at f_used
                (dirs ∙ ap (λ (x : File). x.parent_id) g_is)
                (names ∙ ap (λ (x : File). x.name) g_is ∙ stored_plain name plain))
          | inr (away, g_at) ↦ unique.same_slot j k f g f_at g_at f_used g_used dirs names
        ]
      ];
  are_texts = λ j f at_j f_used. elim (get_elem?-modify s.file_table i j _ f at_j) [
    | inl (here, a, a_at, f_is) ↦
        subst IsText (sym (ap (λ (x : File). x.name) f_is ∙ stored_plain name plain))
          (plain-IsText name plain)
    | inr (apart, f_at) ↦ unique.are_texts j f f_at f_used
  ];
}

-- Creating a file or a directory under a plain name, which has 1 to 31 bytes and no leading slash, keeps
-- the names of each directory unique.
pub make-Unique :
    (kind : ℕ) (name : List ℕ) (s : MemFs)
    → UniqueNames s
    → IsPlain name
    → UniqueNames (make kind (some name) s).1
make-Unique kind name s unique plain = elim (make-cases kind name s) [
  | inl same ↦ subst UniqueNames (sym same.0) unique
  | inr (i, absent, free, e) ↦
      subst UniqueNames (sym (ap (λ r. r.1) e)) (made-Unique kind name s i unique plain absent)
]

-- A slot in use after one is cleared was in use before.
used_slot :
    (s : MemFs) (i j : ℕ) (f : File)
    → get_elem? (modify s.file_table i (λ _. cleared)) j ≡ some f
    → f.in_use ≡ true
    → get_elem? s.file_table j ≡ some f
used_slot s i j f at_j used = elim (get_elem?-modify s.file_table i j (λ _. cleared) f at_j) [
  | inl (here, a, a_at, is) ↦ absurd (ground arith)
  | inr (apart, f_at) ↦ f_at
]

delete_absent :
    (name : List ℕ) (s : MemFs) → find_file name s ≡ none → delete (some name) s ≡ (not_found, s)
unfolding delete
delete_absent name s absent = rw (absent, delete) refl

cleared-Unique : (i : ℕ) (s : MemFs) → UniqueNames s → UniqueNames (clear_slot i s)
unfolding clear_slot
cleared-Unique i s unique = record {
  same_slot = λ j k f g at_j at_k f_used g_used dirs names.
      let f_at = used_slot s i j f at_j f_used in
      let g_at = used_slot s i k g at_k g_used in
      unique.same_slot j k f g f_at g_at f_used g_used dirs names;
  are_texts = λ j f at_j f_used. unique.are_texts j f (used_slot s i j f at_j f_used) f_used;
}

-- Deleting a name keeps the names of each directory unique.
pub delete-Unique :
    (name : List ℕ) (s : MemFs) → UniqueNames s → UniqueNames (delete (some name) s).1
delete-Unique name s unique = elim (Option-cases (find_file name s)) [
  | inl absent ↦ subst UniqueNames (sym (ap (λ r. r.1) (delete_absent name s absent))) unique
  | inr (i, found) ↦
      subst UniqueNames (sym (ap (λ r. r.1) (delete_found name s i found)))
        (cleared-Unique i s unique)
]
