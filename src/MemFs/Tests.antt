-- ===== src/MemFs/Tests.antt =====
-- The file system of fs/memfs_simple.c on concrete names, and examples for its properties.
use claude_os_20day_challeng.Base.{
  ℕ, zero, suc, count_if, ◌<◌, ◌≤◌, ◌≡◌, ◌≢◌, ◌↔◌, min, refl, true, false, none, some, List, [],
  ◌∷◌, ◌++◌, get_elem?, modify, length, find_index, arith,
}
use claude_os_20day_challeng.MemFs.{
  File, MemFs, codes, cleared, find_file, find_in_dir, find_free_slot, new_file, make, create,
  rmdir, read, read_at, write, write_at, put, mkdir, get_stats, success, error, not_found,
  type_file, type_dir,
}
use claude_os_20day_challeng.MemFs.Manage.{
  init, demo_files, greeting, greet, find, format_time, format_permissions, last_digits,
  put_reversed,
}
use claude_os_20day_challeng.MemFs.Text.{simple_strcmp}
use claude_os_20day_challeng.MemFs.Lookup.{IsPlain, find_file-make}
use claude_os_20day_challeng.MemFs.Removal.{UniqueNames, rmdir-Empty}
use claude_os_20day_challeng.MemFs.Invariant.{make-Unique}
use claude_os_20day_challeng.MemFs.Data.{Read, read-fits, read-write}
use claude_os_20day_challeng.MemFs.Search.{find_lem}

-- An empty table of two slots.
abbrev bare : MemFs
bare = record {
  file_table = cleared ∷ cleared ∷ [];
  memfs_initialized = true;
  next_file_id = 1;
  current_dir_id = 0;
  time_counter = 0;
}

abbrev a_name : List ℕ
a_name = codes "a"

a_name-Plain : IsPlain a_name
a_name-Plain = ((omega arith, omega arith, tt), (λ e. omega arith), omega arith)

bare_unused : (i : ℕ) (f : File) → get_elem? bare.file_table i ≡ some f → f.in_use ≢ true
bare_unused zero f e used = ground arith
bare_unused (suc zero) f e used = ground arith
bare_unused (suc (suc i)) f e used = cc

bare-Unique : UniqueNames bare
bare-Unique = record {
  same_slot = λ i j f g at_i at_j f_used g_used dirs names. absurd (bare_unused i f at_i f_used);
  are_texts = λ i f at_i f_used. absurd (bare_unused i f at_i f_used);
}

-- The state after create("a").
abbrev with_a : MemFs
with_a = (create (some a_name) bare).1

find_file-make_example :
    let (r, s') = make type_file (some a_name) bare in
    (r ≡ success)
    × (find_file a_name s' ≡ some 0)
    × ((old : File) × (get_elem? bare.file_table 0 ≡ some old) × (old.in_use ≡ false))
    × ((f : File) × (get_elem? s'.file_table 0 ≡ some f)
        × (f.name ≡ a_name)
        × (f.type ≡ type_file)
        × (f.size ≡ 0)
        × (f.parent_id ≡ 0))
    × ((j : ℕ) → 0 ≢ j → get_elem? s'.file_table j ≡ get_elem? bare.file_table j)
unfolding find_file find_in_dir find_free_slot find_index
find_file-make_example = find_file-make type_file a_name bare 0 a_name-Plain refl refl

with_a-Unique : UniqueNames with_a
unfolding create
with_a-Unique = make-Unique type_file a_name bare bare-Unique a_name-Plain

make-Unique_example : UniqueNames (make type_file (some a_name) bare).1
make-Unique_example = make-Unique type_file a_name bare bare-Unique a_name-Plain

-- A memory of sevens.
abbrev sevens : ℕ → ℕ
sevens _ = 7

read-fits_example :
    ((find_file a_name with_a ≡ none)
      → read (some a_name) (some sevens) 16 with_a ≡ (not_found, some sevens))
    × ((i : ℕ) (f : File)
        → find_file a_name with_a ≡ some i
        → get_elem? with_a.file_table i ≡ some f
        → (buffer' : ℕ → ℕ) × (read (some a_name) (some sevens) 16 with_a
            ≡ (min f.size 15, some buffer'))
          × ((k : ℕ) → k < min f.size 15 → buffer' k ≡ f.content k)
          × ((k : ℕ) → min f.size 15 ≤ k → k < 16 → buffer' k ≡ 0)
          × ((k : ℕ) → 16 ≤ k → buffer' k ≡ sevens k))
read-fits_example = read-fits a_name 16 sevens with_a (omega arith)

read-write_example :
    let (r, s') = write (some a_name) (some (codes "hi")) bare in
    (r ≡ 2) × Read (codes "hi") 16 (read (some a_name) (some sevens) 16 s')
unfolding find_file find_in_dir find_free_slot find_index create make new_file simple_strcmp write
    write_at put
read-write_example =
    read-write a_name (codes "hi") 16 sevens bare (omega arith) (omega arith) (λ e. omega arith)

rmdir-Empty_example :
    let (r, s') = rmdir (some a_name) with_a in
    ((r ≡ success)
      → (i : ℕ) × (f : File) × (find_file a_name with_a ≡ some i)
        × (get_elem? with_a.file_table i ≡ some f)
        × (f.type ≡ type_dir)
        × ((j : ℕ) (g : File)
            → get_elem? with_a.file_table j ≡ some g
            → g.in_use ≡ true
            → g.parent_id ≢ f.id)
        × (s'.file_table ≡ modify with_a.file_table i (λ _. cleared)))
    × ((r ≢ success) → s' ≡ with_a)
rmdir-Empty_example = rmdir-Empty a_name with_a

find_lem_example : (find (some a_name) with_a ≡ success) ↔ (
    (j : ℕ) × (f : File) × (pre : List ℕ) × (post : List ℕ) × (get_elem? with_a.file_table j
      ≡ some f)
    × (f.in_use ≡ true)
    × (f.name ≡ pre ++ a_name ++ post))
find_lem_example = find_lem a_name with_a (omega arith)

-- memfs_simple_init leaves hello.txt readable.
read-init : (read (some (codes "hello.txt")) (some sevens) 256 (init bare)).0 ≡ length greeting
unfolding init demo_files greet find_file find_in_dir find_free_slot find_index create make new_file
    simple_strcmp read read_at mkdir
read-init = refl

-- A path that starts with a slash creates an entry that is not found by that path: write("/x") fails
-- and takes a slot.
absolute_write :
    let (r, s') = write (some (codes "/x")) (some (codes "hi")) bare in
    (r ≡ error) × (find_file (codes "/x") s' ≡ none) × ((get_stats s').total_files ≡ 1)
unfolding find_file find_in_dir find_free_slot find_index create make new_file simple_strcmp write
    get_stats count_if
absolute_write = (refl, refl, refl)

-- Only four digits of a time are kept.
format_time_12345 : format_time 12345 16 ≡ some (codes "T2345")
unfolding format_time last_digits put_reversed
format_time_12345 = refl

format_permissions_6 : format_permissions 6 ≡ codes "rw-"
unfolding format_permissions
format_permissions_6 = refl
