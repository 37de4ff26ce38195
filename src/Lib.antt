-- ===== src/Lib.antt =====
-- The kernel of os-learning, as the step 08.kernel-mm has it: physical and virtual memory, the kernel
-- heap, the descriptor and interrupt tables, the locks and the text screen.
--
-- How the parts interact. The loader leaves an E820 map, which boot_info_init copies; pmm_init makes
-- the bitmap of pages from it; the page fault handler takes pages from pmm_alloc_page and maps them
-- with vmm_map_page; the heap keeps its holes in an ordered array, grows into pages that faults back,
-- and runs under a yield lock; interrupts reach the handlers through the IDT and isr_handler or
-- irq_handler; vga_printf writes every message.
--
-- Files. Paths in parentheses are below 08.kernel-mm/kernel, but for the earlier step's.
--   Base         shared names, Boolean tests on numbers, bits of bytes, the bytes of a literal.
--   BootInfo     (mem/boot_info.c, include/boot_info.h) boot_info_init; Copy: the theorem.
--   Pmm          (mem/pmm.c) the record Pmm holds the static variables; alloc_page, free_page,
--                mark_region_used and, in Pmm/Init, pmm_init. Bitmap and Count: bits and the
--                counter's invariant; Alloc, Free, Region and Init/Boot: what the operations do. Dump
--                has the dumps as the values they print, Listing what the list of regions holds.
--   Vmm          (mem/vmm.c, include/vmm.h) page tables as frames of entries, reached through the
--                window of the self-mapped directory; translate is the processor's walk, tlb its
--                cache. Entries, Translate, Unmap, Coherent, Fault: the theorems. Demand: sequences
--                of accesses that the fault handler serves.
--   OrderedArray (lib/ordered_array.c) storage as a function of the slot, refined to a list.
--   Memory       byte memory, little-endian words, and the results of code that may panic.
--   Strings      (lib/string.c) over byte memory; Moves and Texts: the theorems.
--   Random       (lib/rand.c) the generator; Fixed: where it ends; Range: what rand_range returns.
--   Arith        (lib/math.c) on bit patterns; Floor: division that rounds down.
--   Sync         Locks (sync/spinlock.c, sync/yieldlock.c, and atomic_exchange of
--                sync/lock.S) the operations on one processor; Threads: the yield lock as steps
--                of any number of threads.
--   KHeap        (mem/kheap.c, include/kheap.h) blocks in byte memory: Find, Alloc, Free, Api hold
--                the operations; Blocks, Grow, Bounds, Split, Take and Serve say what each does.
--                Layout, Index and Invariant define the well-formed heap: the blocks without gaps,
--                the index against the holes, and both together; Fuse, Merge, MergeLeft and FreeHeap
--                are for free, Gap and TakeHeap for the block that alloc cuts out of a hole, GrowHeap,
--                Holes and AllocHeap for its growth and its end; Create for create_kheap, Validate for
--                kheap_validate_print; Live states them by the list of the blocks in use, Session and
--                Sound for any sequence of calls, Kernel for kmalloc behind the lock; Room and Users
--                state kmalloc and kfree by the list of the live pointers. Killer is kheap_killer,
--                the stress test: Slots and Held are for one step of its loops, Passes for the
--                loops, Rounds for a round, Survived for the whole. Test is kheap_test: Steps,
--                and Passed for the whole.
--   Cpu          Gdt and Descriptors (mem/gdt.c), Interrupt, Gates and Dispatch
--                (interrupt/interrupt.c and interrupt/timer.c).
--   Vga          (drivers/vga.c) the screen, Digits and Printf; Reading: a strict reading
--                of a number's text; Screen, Numbers, Longs, Printed: the theorems.
--   Dumps        (boot_info_dump of mem/boot_info.c, gdt_dump of mem/gdt.c) their messages on the
--                screen; Outcome: whether each message finds its arguments.
--   Earlier      (07.kernel-idt/kernel/drivers/vga.c) the screen of the step before, where it differs:
--                Digits and Texts for vga_itoa, Messages for vga_printf. First is the
--                vga_itoa of 06.refactoring, Fits: what it writes of its buffer.
--   Boot         (kernel.c and vmm_init of mem/vmm.c) main as the composition of the parts, with the
--                pages of the heap by page faults.
--   Tests        the theorems at concrete inputs, and runs.
--
-- Integers are natural numbers with the wrap-around of the C type written out. An array is a function
-- of the index, a pointer to a page table entry the frame and the index it stands for.
--
-- Bounds and fuel. The search of pmm_alloc_page has as many rounds of fuel as there are RAM pages, and
-- the waiting for a page boundary in find_hole has three: the theorems on both show that it never runs
-- out. The decimal digits of a 64-bit number take at most nine subtractions each. The loop of a lock
-- runs out of any fuel if the lock is held, as the code spins for ever. alloc takes fuel for its calls
-- of itself after growing the heap: on a well-formed heap four rounds are enough. The walk of the
-- validation takes one round more than there are blocks; with at most 400 pointers live, as in the
-- stress test, 802 are enough. rand_range computes in double: no step of it rounds for the arguments
-- of its only call, so the model computes exactly.
--
-- Not modelled: the assembly (loaders, interrupt stubs, table loads), of which the model takes
-- addresses, the self-mapping of the page directory and the empty page tables of the heap's region as
-- hypotheses; vmm_switch_page_directory and vmm_get_current_directory_phys_addr, one move to or from
-- CR3 each; the messages of the initialisers, of main and of the heap's tests; vga_test_printf; the
-- steps before the last, except the text screen of 07.kernel-idt and the vga_itoa of 06.refactoring.
-- The index array of the heap is storage of its own, apart from the blocks. The sequence of addresses
-- at which the heap's code accesses its region is an argument of main: for each of them, in order, the
-- page fault handler runs where the tables have no page. The heap's bytes are those of its virtual
-- addresses.
pub mod Base
pub mod BootInfo
pub mod Pmm
pub mod Vmm
pub mod OrderedArray
pub mod Memory
pub mod Strings
pub mod Random
pub mod Arith
pub mod Sync
pub mod KHeap
pub mod Cpu
pub mod Vga
pub mod Boot
pub mod Dumps
pub mod Earlier
pub mod Tests
