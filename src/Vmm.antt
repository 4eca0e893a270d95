-- ===== src/Vmm.antt =====
-- The page tables of kernel/vmm.c over the page allocator. Directories and tables are pages of physical
-- memory, which the kernel reads at their physical addresses; a page is given by its frame number, and
-- an address by its number. The loading of the directory into the processor is left out.
mod Owned
mod Mapping
mod Identity
mod Tests
use claude_os_20day_challeng.Base.{
  ℕ, zero, suc, ◌+◌, ◌*◌, ◌/◌, ◌%◌, ◌^◌, Bool, true, false, not, ◌&&◌, Option, none, some, ◌==◌,
  if◌then◌else◌,
}
use claude_os_20day_challeng.Pmm.{Pmm, alloc_page}

-- `page_table_entry_t` and `page_directory_entry_t`: the fields that the code writes. `frame` is `table`
-- in a directory.
pub record Entry : Type 0 where
  pub present : Bool
  pub writable : Bool
  pub user : Bool
  pub frame : ℕ

abbrev pub zero_entry : Entry
zero_entry = record { present = false; writable = false; user = false; frame = 0 }

-- `memory f i` is entry `i` of the page with frame number `f`. The address of the current directory is 0
-- before the start.
pub record Vmm : Type 0 where
  pub pmm : Pmm
  pub memory : ℕ → ℕ → Entry
  pub current_page_directory : ℕ

abbrev pub dir_index : ℕ → ℕ
dir_index addr = addr / 2 ^ 22 % 1024

abbrev pub table_index : ℕ → ℕ
table_index addr = addr / 2 ^ 12 % 1024

abbrev pub page_offset : ℕ → ℕ
page_offset addr = addr % 2 ^ 12

abbrev pub frame_of : ℕ → ℕ
frame_of addr = addr / 2 ^ 12

abbrev pub set_entry : (ℕ → ℕ → Entry) → ℕ → ℕ → Entry → ℕ → ℕ → Entry
set_entry memory f i e g j = if g == f && j == i then e else memory g j

-- The loop that zeroes a page.
abbrev pub clear_page : (ℕ → ℕ → Entry) → ℕ → ℕ → ℕ → Entry
clear_page memory f g j = if g == f then zero_entry else memory g j

-- A page table for `dir_entry`, from `alloc_page`.
unfoldable pub new_table : ℕ → ℕ → Vmm → Option ℕ × Vmm
new_table dir index s =
    let (table_phys, pmm') = alloc_page s.pmm in
    if table_phys == 0 then (none, record s { pmm = pmm' }) else (
      some (frame_of table_phys),
      record s {
        pmm = pmm';
        memory =
            set_entry (clear_page s.memory (frame_of table_phys)) (frame_of dir) index (record {
              present = true;
              writable = true;
              user = true;
              frame = frame_of table_phys;
            });
      },
    )

-- `get_page_table`: the frame of the table, none for NULL.
unfoldable pub get_page_table : ℕ → ℕ → Bool → Vmm → Option ℕ × Vmm
get_page_table dir virt_addr create s =
    let dir_entry = s.memory (frame_of dir) (dir_index virt_addr) in
    if dir_entry.present
    then (some dir_entry.frame, s)
    else (if create then new_table dir (dir_index virt_addr) s else (none, s))

-- The bits of `flags`: PAGE_PRESENT, PAGE_WRITABLE and PAGE_USER.
abbrev pub flag : ℕ → ℕ → Bool
flag flags k = flags / k % 2 == 1

abbrev pub new_entry : ℕ → ℕ → Entry
new_entry phys_addr flags = record {
  present = flag flags 1;
  writable = flag flags 2;
  user = flag flags 4;
  frame = frame_of phys_addr;
}

-- The part of `vmm_map_page` after the table is looked up.
unfoldable pub fill_page : ℕ → ℕ → ℕ → Option ℕ × Vmm → Vmm
fill_page virt_addr phys_addr flags (none, s) = s
fill_page virt_addr phys_addr flags (some t, s) = record s {
  memory = set_entry s.memory t (table_index virt_addr) (new_entry phys_addr flags);
}

-- `vmm_map_page`.
unfoldable pub map_page : ℕ → ℕ → ℕ → ℕ → Vmm → Vmm
unfolding fill_page
map_page dir virt_addr phys_addr flags s =
    fill_page virt_addr phys_addr flags (get_page_table dir virt_addr true s)

-- `vmm_unmap_page`, but for the flush of the processor's cache.
unfoldable pub unmap_page : ℕ → ℕ → Vmm → Vmm
unmap_page dir virt_addr s = elim (get_page_table dir virt_addr false s).0 [
  | none ↦ s
  | some t ↦
      let page = s.memory t (table_index virt_addr) in
      record s {
        memory =
            set_entry s.memory t (table_index virt_addr)
              (record page { present = false; frame = 0 });
      }
]

-- The entry of the page of an address, none without a table.
unfoldable pub page_entry : ℕ → ℕ → Vmm → Option Entry
page_entry dir virt_addr s = elim (get_page_table dir virt_addr false s).0 [
  | none ↦ none
  | some t ↦ some (s.memory t (table_index virt_addr))
]

-- `vmm_get_physical_address`.
unfoldable pub get_physical_address : ℕ → ℕ → Vmm → ℕ
get_physical_address dir virt_addr s = elim (page_entry dir virt_addr s) [
  | none ↦ 0
  | some page ↦ if page.present then page.frame * 2 ^ 12 + page_offset virt_addr else 0
]

-- `vmm_is_page_present`.
unfoldable pub is_page_present : ℕ → ℕ → Vmm → ℕ
is_page_present dir virt_addr s = elim (page_entry dir virt_addr s) [
  | none ↦ 0
  | some page ↦ if page.present then 1 else 0
]

-- `vmm_create_page_directory`: the address, 0 for NULL.
unfoldable pub create_page_directory : Vmm → ℕ × Vmm
create_page_directory s =
    let (page_dir_phys, pmm') = alloc_page s.pmm in
    if page_dir_phys == 0 then (0, record s { pmm = pmm' }) else (
      page_dir_phys,
      record s { pmm = pmm'; memory = clear_page s.memory (frame_of page_dir_phys) },
    )

-- `vmm_switch_page_directory`.
unfoldable pub switch_page_directory : ℕ → Vmm → Vmm
switch_page_directory dir s = record s { current_page_directory = dir }

-- PAGE_PRESENT | PAGE_WRITABLE.
abbrev pub present_writable : ℕ
present_writable = 3

-- The first `n` rounds of the loop of `vmm_identity_map_kernel`, which has 1024.
unfoldable pub identity_map : ℕ → ℕ → Vmm → Vmm
identity_map dir zero s = s
identity_map dir (suc n) s =
    map_page dir (n * 2 ^ 12) (n * 2 ^ 12) present_writable (identity_map dir n s)

-- The part of `vmm_init` after the page for the directory is allocated.
unfoldable pub fill_directory : ℕ × Vmm → Option Vmm
fill_directory (dir, s) =
    if dir == 0
    then none
    else some (identity_map dir 1024 (record s { current_page_directory = dir }))

-- `vmm_init`; none stands for the panic of the kernel without a page for the directory.
unfoldable pub init : Vmm → Option Vmm
unfolding fill_directory
init s = fill_directory (create_page_directory s)
