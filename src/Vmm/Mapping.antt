-- ===== src/Vmm/Mapping.antt =====
-- `vmm_map_page`, `vmm_unmap_page` and `vmm_get_physical_address` of kernel/vmm.c.
use claude_os_20day_challeng.Base.{
  ℕ, ◌+◌, ◌*◌, ◌^◌, ◌≡◌, ◌≢◌, ◌⊎◌, refl, sym, ap, subst, ◌∙◌, Bool, true, false, ◌&&◌, some, ◌==◌,
  if◌then◌else◌, Bool-cases, inl, inr, arith,
}
use claude_os_20day_challeng.Vmm.{
  Entry, Vmm, dir_index, table_index, page_offset, frame_of, flag, new_entry, get_page_table,
  new_table, fill_page, map_page, unmap_page, get_physical_address,
}
use claude_os_20day_challeng.Vmm.Owned.{
  Owned, value, walk, get_physical_address-walk, taken, new_table-taken, walk-taken, taken-Owned,
  written, walk-written, written-Owned,
}

-- The table of the address is there, or a page for it is free.
abbrev pub Room : ℕ → ℕ → Vmm → Type 0
Room dir addr s =
    ((s.memory (frame_of dir) (dir_index addr)).present ≡ true) ⊎ (s.pmm.free_pages ≢ 0)

-- The addresses of one page.
abbrev pub same_page : ℕ → ℕ → Bool
same_page a b = dir_index a == dir_index b && table_index a == table_index b

-- What mapping a page promises of the walk.
abbrev Maps : ℕ → ℕ → Entry → Vmm → Vmm → Type 0
Maps dir virt e s t =
    Owned dir t
    × ((t.memory (frame_of dir) (dir_index virt)).present ≡ true)
    × ((addr : ℕ)
        → walk t.memory (frame_of dir) addr
          ≡ (if same_page addr virt then value e addr else walk s.memory (frame_of dir) addr))

map_page-written :
    (dir virt phys flags t : ℕ) (s s' : Vmm)
    → get_page_table dir virt true s ≡ (some t, s')
    → map_page dir virt phys flags s ≡ written t (table_index virt) (new_entry phys flags) s'
unfolding map_page fill_page
map_page-written dir virt phys flags t s s' e = ap (fill_page virt phys flags) e

get_page_table-there :
    (dir virt : ℕ) (s : Vmm) (create : Bool)
    → (s.memory (frame_of dir) (dir_index virt)).present ≡ true
    → get_page_table dir virt create s ≡ (some (s.memory (frame_of dir) (dir_index virt)).frame, s)
unfolding get_page_table
get_page_table-there dir virt s create there = rw (there, get_page_table) refl

get_page_table-new :
    (dir virt : ℕ) (s : Vmm)
    → (s.memory (frame_of dir) (dir_index virt)).present ≡ false
    → get_page_table dir virt true s ≡ new_table dir (dir_index virt) s
unfolding get_page_table
get_page_table-new dir virt s absent = rw (absent, get_page_table) refl

-- Writing the entry of a page through its table.
written-Maps :
    (dir virt : ℕ) (e : Entry) (s : Vmm)
    → Owned dir s
    → (s.memory (frame_of dir) (dir_index virt)).present ≡ true
    → Maps dir virt e s
        (written (s.memory (frame_of dir) (dir_index virt)).frame (table_index virt) e s)
written-Maps dir virt e s owned there =
    let i = dir_index virt in
    let k = table_index virt in
    (
      written-Owned dir i k e s owned there,
      ground (arith, there, owned.apart i),
      walk-written dir i k e s owned there,
    )

map_page-there :
    (dir virt phys flags : ℕ) (s : Vmm)
    → Owned dir s
    → (s.memory (frame_of dir) (dir_index virt)).present ≡ true
    → Maps dir virt (new_entry phys flags) s (map_page dir virt phys flags s)
map_page-there dir virt phys flags s owned there =
    subst (Maps dir virt (new_entry phys flags) s)
      (sym
        (map_page-written dir virt phys flags _ s s (get_page_table-there dir virt s true there)))
      (written-Maps dir virt (new_entry phys flags) s owned there)

map_page-new :
    (dir virt phys flags : ℕ) (s : Vmm)
    → Owned dir s
    → (s.memory (frame_of dir) (dir_index virt)).present ≡ false
    → s.pmm.free_pages ≢ 0
    → Maps dir virt (new_entry phys flags) s (map_page dir virt phys flags s)
map_page-new dir virt phys flags s owned absent room =
    let i = dir_index virt in
    let (page, a, takes) = new_table-taken dir i s owned room in
    let s' = taken dir i page s in
    let owned' = taken-Owned dir i page s owned a absent in
    let there : (s'.memory (frame_of dir) i).present ≡ true = ground arith in
    let is : (s'.memory (frame_of dir) i).frame ≡ page = ground arith in
    let (owned'', there', walks) = written-Maps dir virt (new_entry phys flags) s' owned' there in
    let made =
      map_page-written dir virt phys flags page s s'
        (get_page_table-new dir virt s absent ∙ takes) in
    subst (Maps dir virt (new_entry phys flags) s)
      (sym (made ∙ ap (λ t. written t (table_index virt) (new_entry phys flags) s') (sym is)))
      (
        owned'',
        there',
        (λ addr.
            walks addr
            ∙ ap (λ w. if same_page addr virt then value (new_entry phys flags) addr else w)
                (walk-taken dir i page s owned a absent addr)),
      )

map_page-Maps :
    (dir virt phys flags : ℕ) (s : Vmm)
    → Owned dir s
    → Room dir virt s
    → Maps dir virt (new_entry phys flags) s (map_page dir virt phys flags s)
map_page-Maps dir virt phys flags s owned (inl there) =
    map_page-there dir virt phys flags s owned there
map_page-Maps dir virt phys flags s owned (inr free) =
    elim (Bool-cases (s.memory (frame_of dir) (dir_index virt)).present) [
      | inl there ↦ map_page-there dir virt phys flags s owned there
      | inr absent ↦ map_page-new dir virt phys flags s owned absent free
    ]

-- While there is a table for the address or a free page, mapping a page keeps the tables of the
-- directory separate and makes a table, and every address of the page then translates to the
-- physical page with the offset kept, or to 0 without the flag PAGE_PRESENT; the addresses of other
-- pages translate as before.
pub get_physical_address-map_page :
    (dir virt phys flags : ℕ) (s : Vmm)
    → Owned dir s
    → Room dir virt s
    → let s' = map_page dir virt phys flags s in
      Owned dir s'
      × ((s'.memory (frame_of dir) (dir_index virt)).present ≡ true)
      × ((addr : ℕ)
          → get_physical_address dir addr s' ≡ (
              if same_page addr virt
              then (if flag flags 1 then frame_of phys * 2 ^ 12 + page_offset addr else 0)
              else get_physical_address dir addr s))
get_physical_address-map_page dir virt phys flags s owned room =
    let (owned', there, walks) = map_page-Maps dir virt phys flags s owned room in
    (
      owned',
      there,
      (λ addr.
          get_physical_address-walk dir addr (map_page dir virt phys flags s)
          ∙ walks addr
          ∙ ap (λ w. if same_page addr virt then value (new_entry phys flags) addr else w)
              (sym (get_physical_address-walk dir addr s))),
    )

unmap_page-written :
    (dir virt t : ℕ) (s : Vmm)
    → (get_page_table dir virt false s).0 ≡ some t
    → unmap_page dir virt s
      ≡ written t
          (table_index virt)
          (record (s.memory t (table_index virt)) { present = false; frame = 0 })
          s
unfolding unmap_page
unmap_page-written dir virt t s e = rw (e, unmap_page) refl

unmap_page-none :
    (dir virt : ℕ) (s : Vmm)
    → (s.memory (frame_of dir) (dir_index virt)).present ≡ false
    → unmap_page dir virt s ≡ s
unfolding unmap_page get_page_table
unmap_page-none dir virt s absent = rw (absent, unmap_page, get_page_table) refl

-- After a page is unmapped its addresses translate to 0, the others as before, and the tables of the
-- directory stay separate.
pub get_physical_address-unmap_page :
    (dir virt : ℕ) (s : Vmm)
    → Owned dir s
    → let s' = unmap_page dir virt s in
      Owned dir s'
      × ((addr : ℕ)
          → get_physical_address dir addr s'
            ≡ (if same_page addr virt then 0 else get_physical_address dir addr s))
get_physical_address-unmap_page dir virt s owned =
    elim (Bool-cases (s.memory (frame_of dir) (dir_index virt)).present) [
      | inr absent ↦ rw (unmap_page-none dir virt s absent) (
        owned,
        (λ addr. elim (Bool-cases (same_page addr virt)) [
          | inr other ↦ rw other refl
          | inl same ↦
              let nothing : walk s.memory (frame_of dir) addr ≡ 0 = ground (arith, absent) in
              rw same (get_physical_address-walk dir addr s ∙ nothing)
        ]),
      )
      | inl there ↦
          let found = ap (λ r. r.0) (get_page_table-there dir virt s false there) in
          let e : Entry =
            record (s.memory (s.memory (frame_of dir) (dir_index virt)).frame (table_index virt)) {
              present = false;
              frame = 0;
            } in
          let (owned', there', walks) = written-Maps dir virt e s owned there in
          rw (unmap_page-written dir virt _ s found) (
            owned',
            (λ addr.
                get_physical_address-walk dir addr
                  (written (s.memory (frame_of dir) (dir_index virt)).frame (table_index virt) e s)
                ∙ walks addr
                ∙ ap (λ w. if same_page addr virt then 0 else w)
                    (sym (get_physical_address-walk dir addr s))),
          )
    ]
