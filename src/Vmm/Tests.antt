-- ===== src/Vmm/Tests.antt =====
-- Examples for kernel/vmm.c.
use claude_os_20day_challeng.Base.{
  ℕ, ◌+◌, ◌*◌, ◌^◌, ◌<◌, ◌≡◌, refl, true, ◌&&◌, some, ltb, ◌==◌, if◌then◌else◌, inl, arith,
}
use claude_os_20day_challeng.Pmm.{test_bit, set_bit, mark_used, mark_kernel}
use claude_os_20day_challeng.Pmm
use claude_os_20day_challeng.Pmm.Boot.{init-Inv}
use claude_os_20day_challeng.Vmm.{
  Vmm, zero_entry, page_offset, flag, map_page, get_physical_address, init, is_page_present,
  page_entry, get_page_table, fill_page,
}
use claude_os_20day_challeng.Vmm.Owned.{Owned, table_entry}
use claude_os_20day_challeng.Vmm.Mapping.{same_page, get_physical_address-map_page}
use claude_os_20day_challeng.Vmm.Identity.{init-Identity}

abbrev blank : Vmm
blank = record { pmm = Pmm.init; memory = λ f i. zero_entry; current_page_directory = 0 }

kernel_used :
    (test_bit Pmm.init.memory_bitmap 0 ≡ true)
    × (test_bit Pmm.init.memory_bitmap 0x100 ≡ true)
    × (test_bit Pmm.init.memory_bitmap 0x101 ≡ true)
kernel_used = (init-Inv.1 0, init-Inv.1 0x100, init-Inv.1 0x101)

init-Identity_example :
    (t : Vmm) × (init blank ≡ some t)
    × Owned t.current_page_directory t
    × ((addr : ℕ)
        → addr < 2 ^ 32
        → get_physical_address t.current_page_directory addr t
          ≡ (if ltb addr 0x400000 then addr else 0))
init-Identity_example = init-Identity blank init-Inv.0 kernel_used.0 (omega (arith, init-Inv.2))

-- A directory at 0x100000 with one table.
abbrev one_table : Vmm
one_table = record {
  pmm = Pmm.init;
  memory = λ f i. if f == 0x100 && i == 0 then table_entry 0x101 else zero_entry;
  current_page_directory = 0x100000;
}

one_table-Owned : Owned 0x100000 one_table
one_table-Owned = record {
  inv = init-Inv.0;
  zero_used = kernel_used.0;
  dir_used = kernel_used.1;
  used = λ i here. ground (arith, kernel_used.2);
  apart = λ i here. ground arith;
  distinct = λ i j here there same. ground arith;
}

get_physical_address-map_page_example :
    let s' = map_page 0x100000 0x5000 0x9000 3 one_table in
    Owned 0x100000 s'
    × ((s'.memory 0x100 0).present ≡ true)
    × ((addr : ℕ)
        → get_physical_address 0x100000 addr s' ≡ (
            if same_page addr 0x5000
            then (if flag 3 1 then 9 * 2 ^ 12 + page_offset addr else 0)
            else get_physical_address 0x100000 addr one_table))
get_physical_address-map_page_example =
    get_physical_address-map_page 0x100000 0x5000 0x9000 3 one_table one_table-Owned (inl refl)

mapped : is_page_present 0x100000 0x5abc (map_page 0x100000 0x5000 0x9000 3 one_table) ≡ 1
unfolding is_page_present page_entry map_page fill_page get_page_table
mapped = refl
