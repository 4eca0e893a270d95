-- ===== src/Vmm/Identity.antt =====
-- `vmm_init` of kernel/vmm.c: the first 4 MB are mapped to themselves.
use claude_os_20day_challeng.Base.{
  ℕ, zero, suc, ◌+◌, ◌*◌, ◌/◌, ◌^◌, ◌<◌, ◌≤◌, ◌≡◌, ◌≢◌, ◌⊎◌, refl, sym, ap, subst, ◌∙◌, true, false,
  some, ltb, ◌==◌, if◌then◌else◌, Bool-cases, inl, inr, arith,
}
use claude_os_20day_challeng.Pmm.{alloc_page, test_bit, page_size}
use claude_os_20day_challeng.Pmm.Invariant.{Inv}
use claude_os_20day_challeng.Pmm.Alloc.{Allocated, alloc_page-Allocated, alloc_page-Inv}
use claude_os_20day_challeng.Vmm.{
  Vmm, dir_index, page_offset, frame_of, clear_page, map_page, get_physical_address,
  create_page_directory, present_writable, identity_map, init, fill_directory, fill_page,
  get_page_table, new_table,
}
use claude_os_20day_challeng.Vmm.Owned.{Owned, get_physical_address-walk}
use claude_os_20day_challeng.Vmm.Mapping.{Room, same_page, get_physical_address-map_page}

-- After `n` rounds the first `n` pages are mapped to themselves and nothing else is.
abbrev Identity : ℕ → ℕ → Vmm → Type 0
Identity dir n s =
    Owned dir s
    × Room dir 0 s
    × ((addr : ℕ)
        → addr < 2 ^ 32
        → get_physical_address dir addr s ≡ (if ltb (addr / 2 ^ 12) n then addr else 0))

low_dir : (n : ℕ) → n < 1024 → dir_index (n * 2 ^ 12) ≡ 0
low_dir n lt = omega arith

identity_step :
    (n addr old : ℕ)
    → n < 1024
    → addr < 2 ^ 32
    → old ≡ (if ltb (addr / 2 ^ 12) n then addr else 0)
    → (if same_page addr (n * 2 ^ 12)
        then frame_of (n * 2 ^ 12) * 2 ^ 12 + page_offset addr
        else old)
      ≡ (if ltb (addr / 2 ^ 12) (suc n) then addr else 0)
identity_step n addr old lt small is = ground arith

identity_map-Identity :
    (dir n : ℕ) (s : Vmm) → n ≤ 1024 → Identity dir 0 s → Identity dir n (identity_map dir n s)
unfolding identity_map
identity_map-Identity dir zero s le start = start
identity_map-Identity dir (suc n) s le start =
    let t = identity_map dir n s in
    let (owned, room, maps) = identity_map-Identity dir n s (omega arith) start in
    let page = n * 2 ^ 12 in
    let low = low_dir n (omega arith) in
    let room' =
      subst (λ i. ((t.memory (frame_of dir) i).present ≡ true) ⊎ (t.pmm.free_pages ≢ 0)) (sym low)
        room in
    let (owned', there, maps') =
      get_physical_address-map_page dir page page present_writable t owned room' in
    let t' = map_page dir page page present_writable t in
    (
      owned',
      inl (subst (λ i. (t'.memory (frame_of dir) i).present ≡ true) low there),
      (λ addr small.
          maps' addr
          ∙ identity_step n addr (get_physical_address dir addr t) (omega arith) small
              (maps addr small)),
    )

-- A new directory with two pages free.
start-Identity :
    (page : ℕ) (s : Vmm)
    → Inv s.pmm
    → test_bit s.pmm.memory_bitmap 0 ≡ true
    → 1 < s.pmm.free_pages
    → Allocated s.pmm page (alloc_page s.pmm)
    → Identity (page * page_size) 0 (record s {
      pmm = (alloc_page s.pmm).1;
      memory = clear_page s.memory page;
      current_page_directory = page * page_size;
    })
start-Identity page s inv zero_used two a =
    let t : Vmm = record s {
      pmm = (alloc_page s.pmm).1;
      memory = clear_page s.memory page;
      current_page_directory = page * page_size;
    } in
    let dir = page * page_size in
    let is : frame_of dir ≡ page = omega arith in
    let empty : (i : ℕ) → (t.memory (frame_of dir) i).present ≡ false = λ i. ground (arith, is) in
    (
      record {
        inv = alloc_page-Inv s.pmm inv;
        zero_used = ground (arith, a.marks 0);
        dir_used = ground (arith, is, a.marks (frame_of dir));
        used = λ i here. absurd (ground (arith, empty i));
        apart = λ i here. absurd (ground (arith, empty i));
        distinct = λ i j here there same. absurd (ground (arith, empty i));
      },
      inr (omega (arith, a.fewer)),
      (λ addr small. get_physical_address-walk dir addr t ∙ ground (arith, empty (dir_index addr))),
    )

create_page_directory-new :
    (page : ℕ) (s : Vmm)
    → test_bit s.pmm.memory_bitmap 0 ≡ true
    → Allocated s.pmm page (alloc_page s.pmm)
    → (page ≢ 0)
      × (create_page_directory s ≡ (
        page * page_size,
        record s { pmm = (alloc_page s.pmm).1; memory = clear_page s.memory page },
      ))
unfolding create_page_directory
create_page_directory-new page s zero_used a =
    let not_zero : page ≢ 0 = λ e. ground (arith, a.was_free, zero_used) in
    let is : frame_of (page * page_size) ≡ page = omega arith in
    let some_page : (page * page_size == 0) ≡ false = ground arith in
    (not_zero, rw (create_page_directory, a.address, some_page, is) refl)

map_page-current :
    (dir virt phys flags : ℕ) (s : Vmm)
    → (map_page dir virt phys flags s).current_page_directory ≡ s.current_page_directory
unfolding map_page fill_page get_page_table new_table
map_page-current dir virt phys flags s =
    elim (Bool-cases (s.memory (frame_of dir) (dir_index virt)).present) [
      | inl there ↦ rw (there, map_page, get_page_table) refl
      | inr absent ↦ elim (Bool-cases ((alloc_page s.pmm).0 == 0)) [
        | inl full ↦ rw (absent, full, map_page, get_page_table, new_table) refl
        | inr room ↦ rw (absent, room, map_page, get_page_table, new_table) refl
      ]
    ]

identity_map-current :
    (dir n : ℕ) (s : Vmm) → (identity_map dir n s).current_page_directory ≡ s.current_page_directory
unfolding identity_map
identity_map-current dir zero s = refl
identity_map-current dir (suc n) s =
    map_page-current dir (n * 2 ^ 12) (n * 2 ^ 12) present_writable (identity_map dir n s)
    ∙ identity_map-current dir n s

-- With two free pages, and page 0 in use, vmm_init succeeds: an address below 4 MB then translates to
-- itself in the current directory, and any other to 0, and the directory's tables are separate.
pub init-Identity :
    (s : Vmm)
    → Inv s.pmm
    → test_bit s.pmm.memory_bitmap 0 ≡ true
    → 1 < s.pmm.free_pages
    → (t : Vmm) × (init s ≡ some t)
      × Owned t.current_page_directory t
      × ((addr : ℕ)
          → addr < 2 ^ 32
          → get_physical_address t.current_page_directory addr t
            ≡ (if ltb addr 0x400000 then addr else 0))
unfolding init fill_directory
init-Identity s inv zero_used two =
    let (page, a) = alloc_page-Allocated s.pmm inv (λ e. omega arith) in
    let (not_zero, new) = create_page_directory-new page s zero_used a in
    let some_page : (page * page_size == 0) ≡ false = ground arith in
    let start = start-Identity page s inv zero_used two a in
    let t : Vmm = record s {
      pmm = (alloc_page s.pmm).1;
      memory = clear_page s.memory page;
      current_page_directory = page * page_size;
    } in
    let (owned, room, maps) = identity_map-Identity (page * page_size) 1024 t (omega arith) start in
    let current = sym (identity_map-current (page * page_size) 1024 t) in
    (
      identity_map (page * page_size) 1024 t,
      ap fill_directory new ∙ rw some_page refl,
      subst (λ d. Owned d (identity_map (page * page_size) 1024 t)) current owned,
      (λ addr small.
          subst
            (λ d.
              get_physical_address d addr (identity_map (page * page_size) 1024 t)
              ≡ (if ltb addr 0x400000 then addr else 0))
            current (maps addr small ∙ ground arith)),
    )
