-- ===== src/MemFs/Manage.antt =====
-- The rest of fs/memfs_simple.c: start, paths, copies and renames, search, attributes and the texts of
-- times and permissions.
use Prim.Native.Nat.{bit_and}
use claude_os_20day_challeng.Base.{
  ℕ, zero, suc, ◌+◌, ◌-◌, ◌/◌, ◌%◌, Bool, true, not, ◌&&◌, Option, none, some, List, [], ◌∷◌, ◌++◌,
  get_or, modify, replicate, take, length, find_index, count_if, ltb, ◌==◌, if◌then◌else◌, add32,
  sub32,
}
use claude_os_20day_challeng.MemFs.{
  File, MemFs, codes, cleared, find_file, create, mkdir, copy_into, simple_memcpy, success, error,
  not_found, exists, max_files, max_filename, type_file,
}
use claude_os_20day_challeng.MemFs.Text.{simple_strcpy, occurs}

-- `file_table[i] = f(file_table[i])` with the next time stamp.
unfoldable pub stamp : ℕ → (ℕ → File → File) → MemFs → ℕ × MemFs
stamp i f s = (
  success,
  record s {
    file_table = modify s.file_table i (f (add32 s.time_counter 1));
    time_counter = add32 s.time_counter 1;
  },
)

abbrev pub greeting : List ℕ
greeting = codes "Hello, ClaudeOS!\nThis is a test file in memory.\nMemFS Day 9 working!"

-- The text of hello.txt: `data` is cleared first.
unfoldable pub greet : File → File
greet f = record f { content = copy_into greeting (λ _. 0); size = length greeting }

-- The calls of `memfs_simple_init` after the table is cleared, whose results it drops.
unfoldable pub demo_files : MemFs → MemFs
demo_files s =
    let s1 = (mkdir (some (codes "bin")) s).1 in
    let s2 = (mkdir (some (codes "home")) s1).1 in
    let s3 = (mkdir (some (codes "tmp")) s2).1 in
    let s4 = (create (some (codes "hello.txt")) s3).1 in
    let s5 = (create (some (codes "readme.md")) s4).1 in (create (some (codes "test.txt")) s5).1

-- `memfs_simple_init`: the counters keep their values.
unfoldable pub init : MemFs → MemFs
unfolding greet demo_files
init s =
    let t = demo_files (record s {
      file_table = replicate max_files cleared;
      memfs_initialized = true;
      current_dir_id = 0;
    }) in
    elim (find_file (codes "hello.txt") t) [
      | none ↦ t
      | some i ↦ record t { file_table = modify t.file_table i greet }
    ]

-- `memfs_simple_getcwd`: the string that the buffer then holds, none if it is left as it was. A size
-- of 0 stands for a NULL buffer too.
unfoldable pub getcwd : ℕ → MemFs → Option (List ℕ)
getcwd size s =
    if size == 0
    then none
    else some (
        if s.current_dir_id == 0
        then simple_strcpy (codes "/") size
        else elim (find_index (λ f. f.in_use && f.id == s.current_dir_id) s.file_table) [
          | none ↦ simple_strcpy (codes "/") size
          | some i ↦ b'/' ∷ simple_strcpy (get_or s.file_table i cleared).name (sub32 size 1)
        ])

set_modified : ℕ → File → File
set_modified now f = record f { modified_time = now }

-- `memfs_simple_touch`.
unfoldable pub touch : Option (List ℕ) → MemFs → ℕ × MemFs
unfolding stamp set_modified
touch none s = (error, s)
touch (some name) s =
    if length name == 0
    then (error, s)
    else elim (find_file name s) [ some i ↦ stamp i set_modified s | none ↦ create (some name) s ]

copy_data : File → ℕ → File → File
copy_data src now dst = record dst {
  content = simple_memcpy src.content src.size dst.content;
  size = src.size;
  modified_time = now;
}

-- The part of `memfs_simple_copy` after its checks.
copy_from : ℕ → List ℕ → MemFs → ℕ × MemFs
unfolding stamp copy_data
copy_from i dst s =
    let (r, s') = create (some dst) s in
    if not (r == success) then (r, s') else elim (find_file dst s') [
      | none ↦ (error, s')
      | some j ↦ stamp j (copy_data (get_or s'.file_table i cleared)) s'
    ]

-- `memfs_simple_copy`.
unfoldable pub copy : Option (List ℕ) → Option (List ℕ) → MemFs → ℕ × MemFs
unfolding copy_from
copy none dst s = (error, s)
copy (some src) none s = (error, s)
copy (some src) (some dst) s = elim (find_file src s) [
  | none ↦ (not_found, s)
  | some i ↦
      if not ((get_or s.file_table i cleared).type == type_file)
      then (error, s)
      else elim (find_file dst s) [ some _ ↦ (exists, s) | none ↦ copy_from i dst s ]
]

rename : List ℕ → ℕ → File → File
rename name now f = record f { name = simple_strcpy name max_filename; modified_time = now }

-- `memfs_simple_move`.
unfoldable pub move : Option (List ℕ) → Option (List ℕ) → MemFs → ℕ × MemFs
unfolding stamp rename
move none dst s = (error, s)
move (some src) none s = (error, s)
move (some src) (some dst) s = elim (find_file src s) [
  | none ↦ (not_found, s)
  | some i ↦ elim (find_file dst s) [ some _ ↦ (exists, s) | none ↦ stamp i (rename dst) s ]
]

abbrev pub matches : List ℕ → File → Bool
matches name f = f.in_use && occurs name f.name

-- `memfs_simple_find`.
unfoldable pub find : Option (List ℕ) → MemFs → ℕ
find none s = error
find (some name) s =
    if length name == 0
    then error
    else (if ltb 0 (count_if (matches name) s.file_table) then success else not_found)

set_permissions : ℕ → ℕ → File → File
set_permissions permissions now f = record f { permissions = permissions; modified_time = now }

-- `memfs_simple_chmod`.
unfoldable pub chmod : Option (List ℕ) → ℕ → MemFs → ℕ × MemFs
unfolding stamp set_permissions
chmod none permissions s = (error, s)
chmod (some name) permissions s =
    if not s.memfs_initialized then (error, s) else elim (find_file name s) [
      | none ↦ (not_found, s)
      | some i ↦ stamp i (set_permissions permissions) s
    ]

set_owner : List ℕ → ℕ → File → File
set_owner owner now f = record f { owner = take 15 owner; modified_time = now }

-- `memfs_simple_chown`.
unfoldable pub chown : Option (List ℕ) → Option (List ℕ) → MemFs → ℕ × MemFs
unfolding stamp set_owner
chown none owner s = (error, s)
chown (some name) none s = (error, s)
chown (some name) (some owner) s =
    if not s.memfs_initialized
    then (error, s)
    else elim (find_file name s) [ none ↦ (not_found, s) | some i ↦ stamp i (set_owner owner) s ]

-- `memfs_simple_stat`, with a `stat_info` that is not NULL: what is stored there.
unfoldable pub stat : Option (List ℕ) → MemFs → ℕ × Option File
stat none s = (error, none)
stat (some name) s = if not s.memfs_initialized then (error, none) else elim (find_file name s) [
  | none ↦ (not_found, none)
  | some i ↦ (success, some (get_or s.file_table i cleared))
]

-- `memfs_simple_format_permissions`.
unfoldable pub format_permissions : ℕ → List ℕ
format_permissions permissions =
    (if bit_and permissions 4 == 0 then b'-' else b'r')
    ∷ (if bit_and permissions 2 == 0 then b'-' else b'w')
    ∷ (if bit_and permissions 1 == 0 then b'-' else b'x')
    ∷ []

-- The digits of `time` from the last one, `n` at most: `temp` of `memfs_simple_format_time`.
unfoldable pub last_digits : ℕ → ℕ → List ℕ
last_digits zero time = []
last_digits (suc n) time =
    let rest = last_digits n (time / 10) in if time == 0 then [] else (b'0' + time % 10) ∷ rest

-- The loop that writes `temp` backwards while there is room, `out` being the buffer so far.
unfoldable pub put_reversed : ℕ → List ℕ → List ℕ → List ℕ
put_reversed size [] out = out
put_reversed size (d ∷ temp) out =
    let out' = put_reversed size temp out in
    if ltb (length out') (size - 1) then out' ++ d ∷ [] else out'

-- `memfs_simple_format_time`; none if the buffer is left as it was.
unfoldable pub format_time : ℕ → ℕ → Option (List ℕ)
format_time time size =
    if ltb size 8
    then none
    else some
        (if time == 0 then b'T' ∷ b'0' ∷ [] else put_reversed size (last_digits 4 time) (b'T' ∷ []))
