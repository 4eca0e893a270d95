-- ===== src/Lib.antt =====
-- A model of the kernel of ClaudeOS, a 32-bit teaching operating system in C, and its properties.
--
-- The program. kernel/pmm.c hands out physical 4 KB pages. kernel/process.c keeps a table of eight
-- processes and a queue of the ready ones. kernel/ipc.c gives processes messages and semaphores, on
-- the same table. fs/memfs_simple.c is a file system in memory with 32 entries. kernel/network.c keeps
-- four network interfaces and 32 packet buffers. kernel/keyboard.c turns scancodes into characters in a
-- ring buffer, from which the main loop of kernel/kernel.c reads: it edits a line on the VGA terminal,
-- with a history and the completion of commands, and runs the line. kernel/vmm.c keeps page tables in the
-- pages of kernel/pmm.c, kernel/heap.c the blocks of kmalloc in mapped pages, kernel/timer.c the ticks,
-- and kernel/string.c has the string routines. The modules below follow these files:
--   Base      what the others share: tests on numbers, 32-bit words, arrays as lists, slot searches
--   Pmm       kernel/pmm.c: the page bitmap (Pmm/Bits, Pmm/Count), its invariant, allocation, release
--   Process   kernel/process.c: the table (Process/Table), the links between processes
--             (Process/Links), creation and search (Process/Lifecycle), the end of processes
--             (Process/Ending) and the ready queue (Process/Schedule)
--   Ipc       kernel/ipc.c: messages (Ipc/Messages), semaphores (Ipc/Semaphores), what they do to the
--             processes (Ipc/Effects), their end (Ipc/Destroy), and a wait before process_switch
--             (Ipc/Dispatch)
--   MemFs     fs/memfs_simple.c: C strings (MemFs/Text), entries and contents (MemFs), the other
--             operations (MemFs/Manage); lookups, unique names, contents and the search by a part of a
--             name (MemFs/Lookup, MemFs/Removal, MemFs/Invariant, MemFs/Data, MemFs/Search)
--   Network   kernel/network.c: ids, statistics and buffers (Network/Interfaces, Network/Stats,
--             Network/Buffers)
--   Keyboard  kernel/keyboard.c: the handler, and the ring as a queue (Keyboard/Ring)
--   Strings   kernel/string.c: the routines, and numbers in decimal (Strings/Decimal)
--   Vmm       kernel/vmm.c: whose frame is whose (Vmm/Owned), mapping (Vmm/Mapping), the map of the
--             kernel (Vmm/Identity)
--   Heap      kernel/heap.c: the free list (Heap/FreeList, Heap/Unlink), the blocks (Heap/Invariant),
--             kmalloc (Heap/Allocate, Heap/Kmalloc), kfree (Heap/Release, Heap/Coalesce, Heap/Free) and
--             the block that is freed twice (Heap/Defects)
--   Terminal  kernel/kernel.c: the VGA text terminal, its loops (Terminal/Scroll), its position
--             (Terminal/Position), what it shows (Terminal/Text) and terminal_printf (Terminal/Printf)
--   History   kernel/kernel.c: the ring of commands (History/Log) and browsing (History/Browse)
--   Command   kernel/kernel.c: arguments (Command/Words), aliases (Command/Aliases), completion
--             (Command/Complete)
--   Shell     kernel/kernel.c: the main loop on a character, over Terminal, History and Command
--             (Shell/Bounds, Shell/Typing)
--   Inspect   kernel/kernel.c: what wc counts (Inspect/Counting), the kind of a file, and the lines
--             that grep finds (Inspect/Lines)
--   Interrupts  kernel/gdt.c, kernel/idt.c and kernel/isr.c: what the descriptors say
--             (Interrupts/Gates)
--   Clock     kernel/timer.c and the uptime of kernel/kernel.c (Clock/Uptime)
--
-- State. A static table is a list of records with the fields of the C struct, and a pointer into a
-- table is a slot number. Each function takes the state and returns it with its result. An int is its
-- 32-bit pattern, so -1 is 2 ^ 32 - 1. The clock is an argument of the functions that read it. A C
-- string is the list of its bytes before the NUL, and an argument that may be NULL is an Option.
-- The memory from a buffer's address on, which memfs_simple_read writes, is a function from the offset
-- to the byte, so that a write behind the buffer would show.
--
-- Fuel. The loop of ipc_destroy_semaphore runs once for each waiting process; it gets 8 rounds, the
-- size of the process table. The digits of a time stamp get the 4 rounds that the code allows,
-- and those of itoa get one round more than the value, which is divided by 10 in each.
--
-- The walk of kmalloc over the free list gets 2 ^ 20 rounds, more than the blocks of the largest heap. The
-- walk of kfree takes its fuel as an argument: each round merges a block or steps over one, so that one round more
-- than the free blocks is enough. timer_wait takes the number of interrupts that come. The digits of
-- terminal_printf get ten rounds, as many as an int has digits.
--
-- The heap. Headers are given by the address of their block; that a program writes past its block, or
-- that a header lies over bytes that were used, is left out. Page tables are the pages by their frame.
--
-- Not modelled: the handlers of the commands and what they print, the ports and the interrupt
-- controller, and the assembly routines (process_switch is modelled up to its call of
-- switch_context).
pub mod Base
pub mod Pmm
pub mod Process
pub mod Ipc
pub mod MemFs
pub mod Network
pub mod Keyboard
pub mod Strings
pub mod Vmm
pub mod Heap
pub mod Terminal
pub mod History
pub mod Command
pub mod Shell
pub mod Clock
pub mod Inspect
pub mod Interrupts
