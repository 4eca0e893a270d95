-- ===== src/MemFs/Data.antt =====
-- The contents of files in fs/memfs_simple.c: what is written is read back.
use claude_os_20day_challeng.Base.{
  ℕ, zero, suc, ◌+◌, ◌-◌, ◌<◌, ◌≤◌, ◌≡◌, ◌≢◌, refl, ap, ap₂, ◌∙◌, false, Option, none, some, List,
  [], ◌∷◌, get_elem?, get_elem?-of_lt, get_elem?-modify_self, get_or, get_or-of_get_elem?, length,
  min, ◌==◌, if◌then◌else◌, add32, arith, find_index-modify, find_index-lt, Option-cases,
  Bool-cases, inl, inr, ◌⊎◌,
}
use claude_os_20day_challeng.MemFs.{
  File, MemFs, cleared, is_named, find_in_dir, find_file, create, write, write_at, put, read,
  read_at, simple_memset, simple_memcpy, put_byte, copy_into, success, error, not_found,
  max_filesize,
}
use claude_os_20day_challeng.MemFs.Text.{take_all}

-- The bytes `content[i .. i + n)`.
abbrev pub bytes_from : (ℕ → ℕ) → ℕ → ℕ → List ℕ
bytes_from content i zero = []
bytes_from content i (suc n) = content i ∷ bytes_from content (i + 1) n

-- The bytes of a buffer that agrees with `bytes` from index `i` on.
bytes_from-agree :
    (content : ℕ → ℕ) (i : ℕ) (bytes : List ℕ) (d : ℕ → ℕ)
    → ((k m : ℕ) → k < length bytes → m ≡ i + k → content m ≡ get_or bytes k (d k))
    → bytes_from content i (length bytes) ≡ bytes
bytes_from-agree content i [] d agree = refl
bytes_from-agree content i (b ∷ bytes) d agree =
    let here : content i ≡ b = agree 0 i (omega arith) (omega arith) in
    let rest =
      bytes_from-agree content (i + 1) bytes (λ k. d (suc k))
        (λ k m lt e. agree (suc k) m (omega arith) (omega arith)) in
    ap₂ (◌∷◌) here rest

find_file-lt :
    (name : List ℕ) (s : MemFs) (i : ℕ) → find_file name s ≡ some i → i < length s.file_table
unfolding find_file find_in_dir
find_file-lt [] s i found = find_index-lt _ s.file_table i found
find_file-lt (c ∷ name) s i found = elim (Bool-cases (c == b'/')) [
  | inl root ↦
      let found' : find_in_dir name 0 s.file_table ≡ some i = ground arith in
      find_index-lt _ s.file_table i found'
  | inr here ↦
      let found' : find_in_dir (c ∷ name) s.current_dir_id s.file_table ≡ some i = ground arith in
      find_index-lt _ s.file_table i found'
]

-- Writing to a file moves no lookup.
find_file-write_at :
    (name : List ℕ) (i : ℕ) (text : List ℕ) (s : MemFs)
    → find_file name (write_at i text s).1 ≡ find_file name s
unfolding find_file find_in_dir write_at put
find_file-write_at [] i text s = find_index-modify _ s.file_table i _ (λ f. refl)
find_file-write_at (c ∷ name) i text s =
    ap₂ (λ x y. if c == b'/' then x else y)
      (find_index-modify (is_named name 0) s.file_table i _ (λ f. refl))
      (find_index-modify (is_named (c ∷ name) s.current_dir_id) s.file_table i _ (λ f. refl))

-- The memory at the buffer after `memfs_simple_read` has found the file.
read_at-bytes :
    (f : File) (size : ℕ) (buffer : ℕ → ℕ)
    → 0 < size
    → let (r, buffer') = read_at f size buffer in
      (r ≡ min f.size (size - 1))
      × ((k : ℕ) → k < r → buffer' k ≡ f.content k)
      × ((k : ℕ) → r ≤ k → k < size → buffer' k ≡ 0)
      × ((k : ℕ) → size ≤ k → buffer' k ≡ buffer k)
unfolding read_at simple_memset simple_memcpy put_byte
read_at-bytes f size buffer pos =
    (ground arith, (λ k lt. ground arith), (λ k le lt. ground arith), (λ k le. ground arith))

-- Reading a file that is found, into a buffer of `size > 0` bytes: the result is the smaller of the
-- file's size and `size - 1`; the buffer then holds that many bytes of the file, and zeros behind them
-- to its end; and no byte of the memory behind the buffer is written. For a name that is not found the
-- memory is left as it was and the result is the error code for it.
pub read-fits :
    (name : List ℕ) (size : ℕ) (buffer : ℕ → ℕ) (s : MemFs)
    → 0 < size
    → ((find_file name s ≡ none) → read (some name) (some buffer) size s ≡ (not_found, some buffer))
      × ((i : ℕ) (f : File)
          → find_file name s ≡ some i
          → get_elem? s.file_table i ≡ some f
          → (buffer' : ℕ → ℕ) × (read (some name) (some buffer) size s
              ≡ (min f.size (size - 1), some buffer'))
            × ((k : ℕ) → k < min f.size (size - 1) → buffer' k ≡ f.content k)
            × ((k : ℕ) → min f.size (size - 1) ≤ k → k < size → buffer' k ≡ 0)
            × ((k : ℕ) → size ≤ k → buffer' k ≡ buffer k))
unfolding read
read-fits name size buffer s pos =
    let positive : (size == 0) ≡ false = ground arith in
    (
      (λ absent. rw (positive, absent) refl),
      (λ i f found at.
          let (n, front, zeros, behind) = read_at-bytes f size buffer pos in
          let slot = get_or-of_get_elem? s.file_table i f cleared at in
          (
            (read_at f size buffer).1,
            rw (positive, found, slot) (ap (λ r. (r, some (read_at f size buffer).1)) n),
            (λ k lt. front k (rw n lt)),
            (λ k le lt. zeros k (rw n le) lt),
            behind,
          )),
    )

-- The memory at a buffer holds the text, and zeros from its end to that of the buffer.
pub record Read (text : List ℕ) (size : ℕ) (r : ℕ × Option (ℕ → ℕ)) : Type 0 where
  pub buffer : ℕ → ℕ
  pub returned : r ≡ (length text, some buffer)
  pub bytes : bytes_from buffer 0 (length text) ≡ text
  pub zeros : (k : ℕ) → length text ≤ k → k < size → buffer k ≡ 0

-- A found file that is written to and read back.
read-write_at :
    (name : List ℕ) (i : ℕ) (text : List ℕ) (size : ℕ) (buffer : ℕ → ℕ) (s : MemFs)
    → find_file name s ≡ some i
    → length text ≤ max_filesize
    → length text < size
    → Read text size (read (some name) (some buffer) size (write_at i text s).1)
unfolding write_at put
read-write_at name i text size buffer s found small fits =
    let now = add32 s.time_counter 1 in
    let (old, at) = get_elem?-of_lt s.file_table i (find_file-lt name s i found) in
    let f = put text now old in
    let whole = take_all max_filesize text small in
    let found' = find_file-write_at name i text s ∙ found in
    let written : get_elem? (write_at i text s).1.file_table i ≡ some f =
      rw whole (get_elem?-modify_self s.file_table i (put text now) old at) in
    let (buffer', is, front, zeros, behind) =
      (read-fits name size buffer (write_at i text s).1 (omega arith)).1 i f found' written in
    let n : min (length text) (size - 1) ≡ length text = ground arith in
    record {
      buffer = buffer';
      returned = is ∙ ap (λ r. (r, some buffer')) n;
      bytes = bytes_from-agree buffer' 0 text old.content (λ k m lt e.
          front m (omega (arith, n)) ∙ ap (λ x. copy_into text old.content x) (omega arith));
      zeros = λ k le lt. zeros k (omega (arith, n)) lt;
    }

-- What a successful write leaves: the file found under the name, with the text.
write-cases :
    (name text : List ℕ) (s : MemFs)
    → ((write (some name) (some text) s).0 ≡ error)
      ⊎ ((t : MemFs) × (i : ℕ) × (find_file name t ≡ some i)
          × (write (some name) (some text) s ≡ write_at i text t))
unfolding write
write-cases name text s = elim (Option-cases (find_file name s)) [
  | inr (i, found) ↦ inr (s, i, found, rw (found, write) refl)
  | inl absent ↦
      let (r, t) = create (some name) s in
      elim (Bool-cases (r == success)) [
        | inr failed ↦ inl (rw (absent, failed, write) refl)
        | inl done ↦ elim (Option-cases (find_file name t)) [
          | inl lost ↦ inl (rw (absent, done, lost, write) refl)
          | inr (i, found) ↦ inr (t, i, found, rw (absent, done, found, write) refl)
        ]
      ]
]

-- After a write that does not return an error, of a text that fits into a file, to a file that may
-- have been there or not, the result is the length of the text, and reading the file into a larger
-- buffer returns that length and leaves the text in the buffer, with zeros behind it to its end.
pub read-write :
    (name text : List ℕ) (size : ℕ) (buffer : ℕ → ℕ) (s : MemFs)
    → length text ≤ max_filesize
    → length text < size
    → (write (some name) (some text) s).0 ≢ error
    → let (r, s') = write (some name) (some text) s in
      (r ≡ length text) × Read text size (read (some name) (some buffer) size s')
unfolding write_at
read-write name text size buffer s small fits works = elim (write-cases name text s) [
  | inl failed ↦ absurd (works failed)
  | inr (t, i, found, e) ↦ rw e (
    ap length (take_all max_filesize text small),
    read-write_at name i text size buffer t found small fits,
  )
]
