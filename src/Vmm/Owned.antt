-- ===== src/Vmm/Owned.antt =====
-- The page tables that a directory of kernel/vmm.c owns, and the walk through them.
use claude_os_20day_challeng.Base.{
  ℕ, ◌+◌, ◌*◌, ◌^◌, ◌≡◌, ◌≢◌, refl, true, false, ◌&&◌, some, ◌==◌, if◌then◌else◌, Bool-cases, inl,
  inr, arith,
}
use claude_os_20day_challeng.Pmm.{alloc_page, test_bit}
use claude_os_20day_challeng.Pmm.Invariant.{Inv}
use claude_os_20day_challeng.Pmm.Alloc.{Allocated, alloc_page-Allocated, alloc_page-Inv}
use claude_os_20day_challeng.Vmm.{
  Entry, Vmm, dir_index, table_index, page_offset, frame_of, set_entry, clear_page, new_table,
  get_page_table, page_entry, get_physical_address,
}

-- The tables of the directory are pages in use, different from each other and from the directory.
pub record Owned (dir : ℕ) (s : Vmm) : Type 0 where
  pub inv : Inv s.pmm
  pub zero_used : test_bit s.pmm.memory_bitmap 0 ≡ true
  pub dir_used : test_bit s.pmm.memory_bitmap (frame_of dir) ≡ true
  pub used :
      (i : ℕ)
      → (s.memory (frame_of dir) i).present ≡ true
      → test_bit s.pmm.memory_bitmap (s.memory (frame_of dir) i).frame ≡ true
  pub apart :
      (i : ℕ)
      → (s.memory (frame_of dir) i).present ≡ true
      → (s.memory (frame_of dir) i).frame ≢ frame_of dir
  pub distinct :
      (i j : ℕ)
      → (s.memory (frame_of dir) i).present ≡ true
      → (s.memory (frame_of dir) j).present ≡ true
      → (s.memory (frame_of dir) i).frame ≡ (s.memory (frame_of dir) j).frame
      → i ≡ j

-- The address that an entry gives.
abbrev pub value : Entry → ℕ → ℕ
value e addr = if e.present then e.frame * 2 ^ 12 + page_offset addr else 0

-- The two steps of the walk.
abbrev pub walk : (ℕ → ℕ → Entry) → ℕ → ℕ → ℕ
walk memory d addr =
    if (memory d (dir_index addr)).present
    then value (memory (memory d (dir_index addr)).frame (table_index addr)) addr
    else 0

pub get_physical_address-walk :
    (dir addr : ℕ) (s : Vmm) → get_physical_address dir addr s ≡ walk s.memory (frame_of dir) addr
unfolding get_physical_address page_entry get_page_table
get_physical_address-walk dir addr s =
    elim (Bool-cases (s.memory (frame_of dir) (dir_index addr)).present) [
      | inl t ↦ rw (t, get_physical_address, page_entry, get_page_table) refl
      | inr f ↦ rw (f, get_physical_address, page_entry, get_page_table) refl
    ]

abbrev pub table_entry : ℕ → Entry
table_entry page = record { present = true; writable = true; user = true; frame = page }

-- The state with the new table.
abbrev pub taken : ℕ → ℕ → ℕ → Vmm → Vmm
taken dir index page s = record s {
  pmm = (alloc_page s.pmm).1;
  memory = set_entry (clear_page s.memory page) (frame_of dir) index (table_entry page);
}

pub new_table-taken :
    (dir index : ℕ) (s : Vmm)
    → Owned dir s
    → s.pmm.free_pages ≢ 0
    → (page : ℕ) × Allocated s.pmm page (alloc_page s.pmm)
      × (new_table dir index s ≡ (some page, taken dir index page s))
unfolding new_table
new_table-taken dir index s owned room =
    let (page, a) = alloc_page-Allocated s.pmm owned.inv room in
    let not_zero : page ≢ 0 = λ e. ground (arith, a.was_free, owned.zero_used) in
    let is : frame_of (alloc_page s.pmm).0 ≡ page = omega (arith, a.address) in
    let some_page : ((alloc_page s.pmm).0 == 0) ≡ false = ground (arith, a.address) in
    (page, a, rw (some_page, is, new_table) refl)

module _ (dir index page : ℕ) (s : Vmm) (owned : Owned dir s)
    (a : Allocated s.pmm page (alloc_page s.pmm))
    (absent : (s.memory (frame_of dir) index).present ≡ false) where
  fresh : page ≢ frame_of dir
  fresh e = ground (arith, a.was_free, owned.dir_used)

  fresh_table :
      (i : ℕ)
      → (s.memory (frame_of dir) i).present ≡ true
      → (s.memory (frame_of dir) i).frame ≢ page
  fresh_table i here e = ground (arith, a.was_free, owned.used i)

  -- A new table changes no translation.
  pub walk-taken :
      (addr : ℕ)
      → walk (taken dir index page s).memory (frame_of dir) addr ≡ walk s.memory (frame_of dir) addr
  walk-taken addr =
      let i = dir_index addr in ground (arith, fresh, absent, fresh_table i, owned.apart i)

  pub taken-Owned : Owned dir (taken dir index page s)
  taken-Owned = record {
    inv = alloc_page-Inv s.pmm owned.inv;
    zero_used = ground (arith, a.marks 0, owned.zero_used);
    dir_used = ground (arith, a.marks (frame_of dir), owned.dir_used);
    used = λ i here. ground (
      arith,
      fresh,
      owned.used i,
      a.marks ((taken dir index page s).memory (frame_of dir) i).frame,
    );
    apart = λ i here. ground (arith, fresh, owned.apart i);
    distinct = λ i j here there same.
        ground (arith, fresh, fresh_table i, fresh_table j, owned.distinct i j);
  }

-- An entry of a table that is there is written.
abbrev pub written : ℕ → ℕ → Entry → Vmm → Vmm
written t i e s = record s { memory = set_entry s.memory t i e }

module _ (dir index i : ℕ) (e : Entry) (s : Vmm) (owned : Owned dir s)
    (there : (s.memory (frame_of dir) index).present ≡ true) where
  pub written-Owned : Owned dir (written (s.memory (frame_of dir) index).frame i e s)
  written-Owned = record {
    inv = owned.inv;
    zero_used = owned.zero_used;
    dir_used = owned.dir_used;
    used = λ j here. ground (arith, owned.apart index, owned.used j);
    apart = λ j here. ground (arith, owned.apart index, owned.apart j);
    distinct = λ j k here here' same. ground (arith, owned.apart index, owned.distinct j k);
  }

  -- The translation changes for the addresses of that page alone.
  pub walk-written :
      (addr : ℕ)
      → walk (written (s.memory (frame_of dir) index).frame i e s).memory (frame_of dir) addr ≡ (
          if dir_index addr == index && table_index addr == i
          then value e addr
          else walk s.memory (frame_of dir) addr)
  walk-written addr =
      let j = dir_index addr in
      ground (arith, there, owned.apart index, owned.apart j, owned.distinct j index)
