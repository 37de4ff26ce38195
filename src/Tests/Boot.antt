-- ===== src/Tests/Boot.antt =====
-- The kernel's start on the machine with 16 MiB of RAM.
use os_learning.Base.{
  ℕ, ◌+◌, ◌-◌, true, ◌&&◌, leb, none, ◌==◌, if◌then◌else◌, ◌<◌, ◌≡◌, refl, ◌⊎◌, arith, [], ◌∷◌,
}
use os_learning.Memory.{ok, panic}
use os_learning.BootInfo.{boot_info_init, copy_entries, is_end}
use os_learning.Pmm.{max_bitmap_size_bytes}
use os_learning.Pmm.Init.{reset}
use os_learning.Pmm.Init.Limits.{AreSmall}
use os_learning.Cpu.Gdt.{gdt_init}
use os_learning.Vmm.{Vmm, Entry, zero_entry}
use os_learning.Vmm.Entries.{IsSelfMapped}
use os_learning.Vmm.Demand.{AreIn, HasTables}
use os_learning.KHeap.{State, create_kheap}
use os_learning.KHeap.Api.{Kernel}
use os_learning.KHeap.Create.{create_kheap-IsHeap}
use os_learning.KHeap.Invariant.{IsHeap, hole_of}
use os_learning.KHeap.Killer.{kheap_killer}
use os_learning.KHeap.Test.{kheap_test}
use os_learning.KHeap.Test.Passed.{Tested, kheap_test-Tested}
use os_learning.KHeap.Killer.Survived.{Survived, kheap_killer-Survived}
use os_learning.Boot.{
  heap_range, heap_range-IsRoomy, Machine, Found, Ready, RanOut, main, main-Ready,
}
use os_learning.Tests.Pages.{two_free, low_bitmap-AreBytes, loader_map, sections, machine}
use os_learning.Tests.Text.{screen}
use os_learning.Tests.Machine.{idle}
use os_learning.Tests.Heaps.{kernel, zero_fence}

abbrev found : Found
found = record {
  io_delay_port = 0x80;
  isr = λ n. 0;
  irq = λ n. 0;
  master_mask = 0xB8;
  slave_mask = 0x8F;
  tss_address = 0xC0806000;
  timer_callback = 0xC0801000;
  page_fault_handler = 0xC0802000;
  buffer = loader_map;
  sections = sections;
  mem = λ x. 0;
  array = λ i. 0;
  rounds = λ i. record { ticks = λ j. 7; garbage = λ j. 0xCCCCCCCC };
  created = 0xC0C00000 ∷ 0xC0C01004 ∷ [];
  tested = 0xC0C01FF8 ∷ 0xC0EFFFFC ∷ [];
}

-- The directory in frame 0x101 and the tables as the loader lays them out, each without a page.
abbrev loader_tables : ℕ → ℕ → Entry
loader_tables frame i =
    if (frame == 0x101) && leb 769 i
    then record zero_entry { present = true; rw = true; frame_addr = 0x101 + (i - 769) }
    else zero_entry

abbrev loaded : Vmm
loaded = record { directory = 0x101; frames = loader_tables; tlb = λ page. none }

loaded-IsSelfMapped : IsSelfMapped loaded
loaded-IsSelfMapped = record { self_present = refl; self_frame = refl }

loaded-HasTables : HasTables 0xC0C00000 0xE0000000 loaded
loaded-HasTables = record {
  above = omega arith;
  word = omega arith;
  table = λ addr low high. ground arith;
  outside = λ addr low high. ground arith;
}

inside : AreIn 0xC0C00000 0xE0000000 found.created × AreIn 0xC0C00000 0xE0000000 found.tested
unfolding AreIn
inside = (
  (omega arith, omega arith, (omega arith, omega arith, tt)),
  (omega arith, omega arith, (omega arith, omega arith, tt)),
)

abbrev off : Machine
off = record {
  vga = screen;
  tables = gdt_init 0;
  cpu = idle;
  boot_info = machine;
  vmm = loaded;
  pmm = two_free;
  heap = kernel;
  kernel_directory_phys_addr = 0;
  seed = 0;
}

small : AreSmall (boot_info_init loader_map sections machine)
unfolding boot_info_init copy_entries is_end
small j h = ground arith

main-Ready_example :
    ((main 802 found off ≡ panic)
      × (max_bitmap_size_bytes
          < (reset (boot_info_init loader_map sections machine) two_free).bitmap_size_bytes))
    ⊎ (((main 802 found off ≡ panic) × RanOut found off)
        ⊎ ((m' : Machine) × (main 802 found off ≡ ok m') × Ready found off m'))
main-Ready_example =
    main-Ready 802 found off (omega arith) small (omega arith) low_bitmap-AreBytes zero_fence
      loaded-IsSelfMapped loaded-HasTables inside.0 inside.1

-- The heap as the kernel creates it, on memory that holds zeros.
abbrev created_heap :
    (s : State) × (create_kheap (λ x. 0) (λ i. 0) 0xC0C00000 0xC0F00000 0xE0000000 0 0 ≡ ok s)
    × IsHeap heap_range s (hole_of 0x27FFEF ∷ [])
created_heap =
    create_kheap-IsHeap (λ x. 0) (λ i. 0) 0xC0C00000 0xC0F00000 0xE0000000 0 0 refl refl
      (omega arith) (omega arith) (omega arith) zero_fence

abbrev started : Kernel
started = record { state = created_heap.0; kheap_lock = 0 }

kheap_killer-Survived_example : Survived heap_range (kheap_killer 802 found.rounds started 0)
kheap_killer-Survived_example =
    kheap_killer-Survived heap_range heap_range-IsRoomy 802 (omega arith) found.rounds started 0
      0x27FFEF created_heap.2 refl

kheap_test-Tested_example : Tested heap_range (kheap_test 12 started)
kheap_test-Tested_example =
    kheap_test-Tested heap_range (omega arith) (omega arith) (omega arith) 12 0x27FFEF started
      (omega arith) created_heap.2 refl
