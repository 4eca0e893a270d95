-- ===== src/MemFs.antt =====
-- The file system in memory of fs/memfs_simple.c. What is printed is left out.
pub mod Text
mod Manage
mod Lookup
mod Removal
mod Invariant
mod Data
mod Search
mod Tests
use Prim.Native.Nat.{bit_and}
use Prim.Native.Char.{code}
use Prim.Native.String
use Prim.Native.String.{String}
use claude_os_20day_challeng.Base.{
  ℕ, zero, suc, ◌+◌, ◌-◌, ◌*◌, ◌%◌, ◌^◌, Bool, true, false, not, ◌&&◌, ◌||◌, Option, none, some,
  List, [], ◌∷◌, ◌++◌, get_elem?, get_or, modify, replicate, take, length, find_index, count_if,
  ltb, leb, ◌==◌, if◌then◌else◌, add32, sub32, minus_one,
}
use Text.{simple_strcmp, simple_strcpy, occurs}

abbrev pub max_files : ℕ
max_files = 32

abbrev pub max_filename : ℕ
max_filename = 32

abbrev pub max_filesize : ℕ
max_filesize = 16384

abbrev pub type_file : ℕ
type_file = 1

abbrev pub type_dir : ℕ
type_dir = 2

abbrev pub perm_default : ℕ
perm_default = 6

-- The error codes of memfs_simple.h.
abbrev pub success : ℕ
success = 0

abbrev pub error : ℕ
error = minus_one

abbrev pub not_found : ℕ
not_found = 2 ^ 32 - 2

abbrev pub exists : ℕ
exists = 2 ^ 32 - 3

abbrev pub no_space : ℕ
no_space = 2 ^ 32 - 4

abbrev pub not_dir : ℕ
not_dir = 2 ^ 32 - 5

-- `memfs_simple_file_t`. The bytes of `data` are given by their index.
pub record File : Type 0 where
  pub name : List ℕ
  pub type : ℕ
  pub size : ℕ
  pub content : ℕ → ℕ
  pub in_use : Bool
  pub id : ℕ
  pub parent_id : ℕ
  pub created_time : ℕ
  pub modified_time : ℕ
  pub accessed_time : ℕ
  pub permissions : ℕ
  pub flags : ℕ
  pub owner : List ℕ

pub record MemFs : Type 0 where
  pub file_table : List File
  pub memfs_initialized : Bool
  pub next_file_id : ℕ
  pub current_dir_id : ℕ
  pub time_counter : ℕ

-- The code points of a text of the source.
abbrev pub codes : String → List ℕ
codes String.[] = []
codes (String.◌∷◌ c s) = code c ∷ codes s

-- A file entry with all bytes zero.
abbrev pub cleared : File
cleared = record {
  name = [];
  type = 0;
  size = 0;
  content = λ _. 0;
  in_use = false;
  id = 0;
  parent_id = 0;
  created_time = 0;
  modified_time = 0;
  accessed_time = 0;
  permissions = 0;
  flags = 0;
  owner = [];
}

abbrev pub is_named : List ℕ → ℕ → File → Bool
is_named name parent f = f.in_use && f.parent_id == parent && simple_strcmp f.name name == 0

-- `memfs_simple_find_in_dir`.
unfoldable pub find_in_dir : List ℕ → ℕ → List File → Option ℕ
find_in_dir name parent table = find_index (is_named name parent) table

-- `memfs_simple_find_file`: an absolute path is looked up in the root directory.
unfoldable pub find_file : List ℕ → MemFs → Option ℕ
unfolding find_in_dir
find_file [] s = find_in_dir [] s.current_dir_id s.file_table
find_file (c ∷ name) s =
    if c == b'/'
    then find_in_dir name 0 s.file_table
    else find_in_dir (c ∷ name) s.current_dir_id s.file_table

unfoldable pub find_free_slot : MemFs → Option ℕ
find_free_slot s = find_index (λ f. not f.in_use) s.file_table

unfoldable pub new_file : ℕ → List ℕ → ℕ → ℕ → ℕ → File
new_file kind name id parent now = record {
  name = simple_strcpy name max_filename;
  type = kind;
  size = 0;
  content = λ _. 0;
  in_use = true;
  id = id;
  parent_id = parent;
  created_time = now;
  modified_time = now;
  accessed_time = now;
  permissions = perm_default;
  flags = 0;
  owner = codes "system";
}

-- The body that `memfs_simple_create` and `memfs_simple_mkdir` have in common.
unfoldable pub make : ℕ → Option (List ℕ) → MemFs → ℕ × MemFs
unfolding new_file
make kind none s = (error, s)
make kind (some name) s = if length name == 0 then (error, s) else elim (find_file name s) [
  | some _ ↦ (exists, s)
  | none ↦ elim (find_free_slot s) [
    | none ↦ (no_space, s)
    | some i ↦ (
      success,
      record s {
        file_table =
            modify s.file_table i
              (λ _. new_file kind name s.next_file_id s.current_dir_id (add32 s.time_counter 1));
        next_file_id = add32 s.next_file_id 1;
        time_counter = add32 s.time_counter 1;
      },
    )
  ]
]

-- `memfs_simple_create`.
unfoldable pub create : Option (List ℕ) → MemFs → ℕ × MemFs
unfolding make
create = make type_file

-- `memfs_simple_mkdir`.
unfoldable pub mkdir : Option (List ℕ) → MemFs → ℕ × MemFs
unfolding make
mkdir = make type_dir

unfoldable pub clear_slot : ℕ → MemFs → MemFs
clear_slot i s = record s { file_table = modify s.file_table i (λ _. cleared) }

-- `memfs_simple_delete`.
unfoldable pub delete : Option (List ℕ) → MemFs → ℕ × MemFs
unfolding clear_slot
delete none s = (error, s)
delete (some name) s = elim (find_file name s) [
  | none ↦ (not_found, s)
  | some i ↦ (success, clear_slot i s)
]

-- `memfs_simple_exists` and `memfs_simple_get_size`.
unfoldable pub file_exists : List ℕ → MemFs → ℕ
file_exists name s = elim (find_file name s) [ none ↦ 0 | some _ ↦ 1 ]

unfoldable pub get_size : List ℕ → MemFs → ℕ
get_size name s = elim (find_file name s) [
  | none ↦ minus_one
  | some i ↦ (get_or s.file_table i cleared).size
]

-- `simple_memset(buffer, value, n)`, on the bytes from the pointer on.
unfoldable pub simple_memset : ℕ → ℕ → (ℕ → ℕ) → ℕ → ℕ
simple_memset value n buffer k = if ltb k n then value else buffer k

-- `simple_memcpy(buffer, source, n)`.
unfoldable pub simple_memcpy : (ℕ → ℕ) → ℕ → (ℕ → ℕ) → ℕ → ℕ
simple_memcpy source n buffer k = if ltb k n then source k else buffer k

-- `buffer[i] = value`.
unfoldable pub put_byte : ℕ → ℕ → (ℕ → ℕ) → ℕ → ℕ
put_byte i value buffer k = if k == i then value else buffer k

-- The end of `memfs_simple_read`, for a file that is found: the bytes to be copied, and the memory from
-- the buffer's address on.
unfoldable pub read_at : File → ℕ → (ℕ → ℕ) → ℕ × (ℕ → ℕ)
unfolding simple_memset simple_memcpy put_byte
read_at f buffer_size buffer =
    let copy_size = if ltb f.size (buffer_size - 1) then f.size else buffer_size - 1 in
    let zeros = simple_memset 0 buffer_size buffer in
    let copied = if ltb 0 copy_size then simple_memcpy f.content copy_size zeros else zeros in
    (copy_size, put_byte copy_size 0 copied)

-- `memfs_simple_read`: the number of bytes or an error, and the memory from the buffer's address on;
-- none stands for a NULL pointer.
unfoldable pub read : Option (List ℕ) → Option (ℕ → ℕ) → ℕ → MemFs → ℕ × Option (ℕ → ℕ)
unfolding read_at
read none buffer buffer_size s = (error, buffer)
read (some name) none buffer_size s = (error, none)
read (some name) (some buffer) buffer_size s =
    if buffer_size == 0 then (error, some buffer) else elim (find_file name s) [
      | none ↦ (not_found, some buffer)
      | some i ↦
          let (r, buffer') = read_at (get_or s.file_table i cleared) buffer_size buffer in
          (r, some buffer')
    ]

-- `simple_memcpy(data, bytes, n)`: the bytes from `n` on stay.
abbrev pub copy_into : List ℕ → (ℕ → ℕ) → ℕ → ℕ
copy_into bytes content k = get_or bytes k (content k)

unfoldable pub put : List ℕ → ℕ → File → File
put bytes now f = record f {
  content = copy_into bytes f.content;
  size = length bytes;
  modified_time = now;
}

unfoldable pub write_at : ℕ → List ℕ → MemFs → ℕ × MemFs
unfolding put
write_at i text s =
    let bytes = take max_filesize text in
    (
      length bytes,
      record s {
        file_table = modify s.file_table i (put bytes (add32 s.time_counter 1));
        time_counter = add32 s.time_counter 1;
      },
    )

-- `memfs_simple_write`: the file is created if it is not there.
unfoldable pub write : Option (List ℕ) → Option (List ℕ) → MemFs → ℕ × MemFs
unfolding write_at
write none text s = (error, s)
write (some name) none s = (error, s)
write (some name) (some text) s = elim (find_file name s) [
  | some i ↦ write_at i text s
  | none ↦
      let (r, s') = create (some name) s in
      if r == success
      then elim (find_file name s') [ none ↦ (error, s') | some i ↦ write_at i text s' ]
      else (error, s')
]

pub record Stats : Type 0 where
  pub total_files : ℕ
  pub used_space : ℕ
  pub free_space : ℕ
  pub total_space : ℕ

unfoldable pub used_space : List File → ℕ
used_space [] = 0
used_space (f ∷ fs) = (if f.in_use then f.size else 0) + used_space fs

-- `memfs_simple_get_stats`, for sums below 2 ^ 32.
unfoldable pub get_stats : MemFs → Stats
unfolding used_space
get_stats s = record {
  total_files = count_if (λ f. f.in_use) s.file_table;
  used_space = used_space s.file_table % 2 ^ 32;
  total_space = max_files * max_filesize;
  free_space = sub32 (max_files * max_filesize) (used_space s.file_table % 2 ^ 32);
}

unfoldable pub has_child : ℕ → List File → Bool
has_child id table = elim (find_index (λ f. f.in_use && f.parent_id == id) table) [
  | none ↦ false
  | some _ ↦ true
]

-- `memfs_simple_rmdir`.
unfoldable pub rmdir : Option (List ℕ) → MemFs → ℕ × MemFs
unfolding clear_slot has_child
rmdir none s = (error, s)
rmdir (some name) s = elim (find_file name s) [
  | none ↦ (not_found, s)
  | some i ↦
      let f = get_or s.file_table i cleared in
      if not (f.type == type_dir)
      then (not_dir, s)
      else (if has_child f.id s.file_table then (error, s) else (success, clear_slot i s))
]

unfoldable pub parent_of_current : MemFs → ℕ
parent_of_current s = elim (find_index (λ f. f.in_use && f.id == s.current_dir_id) s.file_table) [
  | none ↦ s.current_dir_id
  | some i ↦ (get_or s.file_table i cleared).parent_id
]

unfoldable pub enter : List ℕ → MemFs → ℕ × MemFs
enter name s = elim (find_file name s) [
  | none ↦ (not_found, s)
  | some i ↦
      let f = get_or s.file_table i cleared in
      if not (f.type == type_dir)
      then (not_dir, s)
      else (success, record s { current_dir_id = f.id })
]

-- `memfs_simple_chdir`.
unfoldable pub chdir : Option (List ℕ) → MemFs → ℕ × MemFs
unfolding parent_of_current enter
chdir none s = (error, s)
chdir (some name) s =
    if simple_strcmp name (codes ".") == 0
    then (success, s)
    else (if simple_strcmp name (codes "..") == 0
        then (
          success,
          if s.current_dir_id == 0 then s else record s { current_dir_id = parent_of_current s },
        )
        else (if simple_strcmp name (codes "/") == 0
            then (success, record s { current_dir_id = 0 })
            else enter name s))
