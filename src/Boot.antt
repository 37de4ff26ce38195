-- ===== src/Boot.antt =====
-- kernel.c: `main` up to its endless loop, without its message and the enabling of interrupts. The
-- loader leaves the heap's region without pages, so `main` takes them by page faults.
use os_learning.Base.{
  ℕ, ◌+◌, ◌^◌, ◌<◌, ◌≤◌, ◌≡◌, ◌⊎◌, inl, inr, refl, sym, subst, arith, some, none, List, [], ◌∷◌,
}
use os_learning.Memory.{Mem, Run, ok, panic, ◌>>=◌}
use os_learning.BootInfo.{BootInfo, E820Entry, KernelSectionInfo, boot_info_init}
use os_learning.BootInfo.Copy.{boot_info_init-Copied}
use os_learning.Pmm.{Pmm, max_bitmap_size_bytes}
use os_learning.Pmm.Bitmap.{AreBytes}
use os_learning.Pmm.Init.{init, reset}
use os_learning.Pmm.Init.Limits.{AreSmall}
use os_learning.Pmm.Init.Boot.{Booted, init-Booted}
use os_learning.Cpu.Gdt.{Tables, gdt_init}
use os_learning.Cpu.Interrupt.{Cpu, idt_init, register_interrupt_handler, init_timer}
use os_learning.Vga.{Vga, clear}
use os_learning.Vmm.{Vmm, Memory}
use os_learning.Vmm.Entries.{IsSelfMapped}
use os_learning.Vmm.Demand.{access_all, AreIn, HasTables, Backed, OutOfPages}
use os_learning.Vmm.Demand.Served.{HasTables-kept, access_all-Outcome}
use os_learning.KHeap.{kheap_start, kheap_min_size, kheap_max}
use os_learning.KHeap.Api.{Kernel, init_kheap}
use os_learning.KHeap.Killer.{Round, kheap_killer}
use os_learning.KHeap.Killer.Held.{IsRoomy}
use os_learning.KHeap.Killer.Survived.{kheap_killer-Survived}
use os_learning.KHeap.Create.{created, create_kheap-IsHeap}
use os_learning.KHeap.Invariant.{Range, IsFenced, IsHeap, hole_of}
use os_learning.Sync.Locks.{yieldlock_init}

abbrev pub timer_frequency : ℕ
timer_frequency = 50

-- The static variables of the modules.
pub record Machine : Type 0 where
  pub vga : Vga
  pub tables : Tables
  pub cpu : Cpu
  pub boot_info : BootInfo
  pub vmm : Vmm
  pub pmm : Pmm
  pub heap : Kernel
  pub kernel_directory_phys_addr : ℕ
  pub seed : ℕ

-- What the code finds: the delay port, the addresses of its stubs, handlers and tables, the masks
-- of the interrupt controllers, the loader's map, the linker's sections, the memory of the heap and
-- of its index as fresh pages hold it, the clock and the stack in the rounds of the stress test, and
-- the addresses of the heap's region that `init_kheap` and the stress test access, in order.
pub record Found : Type 0 where
  pub io_delay_port : ℕ
  pub isr : ℕ → ℕ
  pub irq : ℕ → ℕ
  pub master_mask : ℕ
  pub slave_mask : ℕ
  pub tss_address : ℕ
  pub timer_callback : ℕ
  pub page_fault_handler : ℕ
  pub buffer : ℕ → E820Entry
  pub sections : KernelSectionInfo
  pub mem : Mem
  pub array : ℕ → ℕ
  pub rounds : ℕ → Round
  pub created : List ℕ
  pub tested : List ℕ

-- `vmm_init`: the page fault handler, and the directory's address, KERNEL_PAGE_DIR_PHY.
unfoldable pub vmm_init : ℕ → Cpu → Cpu × ℕ
vmm_init page_fault_handler c = (register_interrupt_handler c 14 page_fault_handler, 0x00101000)

-- The accesses of the heap's region are served behind each of the two calls that make them: the
-- heap's code reads neither manager, so the order of its own steps and of the faults is all one.
unfoldable pub main : ℕ → Found → Machine → Run Machine
main fuel f m =
    let vga = clear m.vga in
    let tables = gdt_init f.tss_address in
    let idt = idt_init f.io_delay_port f.isr f.irq f.master_mask f.slave_mask m.cpu in
    let timer = init_timer idt f.timer_callback timer_frequency in
    let info = boot_info_init f.buffer f.sections m.boot_info in
    elim (init info m.pmm) [
      | none ↦ panic
      | some pmm ↦
          let (cpu, directory) = vmm_init f.page_fault_handler timer in
          init_kheap m.heap.kheap_lock f.mem f.array >>= λ fresh.
          access_all (record { vmm = m.vmm; pmm = pmm }) f.created >>= λ paged.
          kheap_killer fuel f.rounds fresh m.seed >>= λ (heap, seed).
          access_all paged f.tested >>= λ memory. ok (record {
            vga = vga;
            tables = tables;
            cpu = cpu;
            boot_info = info;
            vmm = memory.vmm;
            pmm = memory.pmm;
            heap = heap;
            kernel_directory_phys_addr = directory;
            seed = seed;
          })
    ]

abbrev pub heap_range : Range
heap_range = created kheap_start (kheap_start + kheap_min_size) kheap_max

-- The parts of the machine that work together afterwards.
pub record Ready (f : Found) (m m' : Machine) : Type 0 where
  pub boot_info : m'.boot_info ≡ boot_info_init f.buffer f.sections m.boot_info
  pub booted : Pmm
  pub promised : Booted m'.boot_info booted
  pub paged : Memory
  pub created : Backed (record { vmm = m.vmm; pmm = booted }) f.created paged
  pub tested : Backed paged f.tested (record { vmm = m'.vmm; pmm = m'.pmm })
  pub end : ℕ
  pub size : ℕ
  pub heap : IsHeap (record heap_range { end = end }) m'.heap.state (hole_of size ∷ [])
  pub lock : m'.heap.kheap_lock ≡ 0
  pub handler : m'.cpu.interrupt_handlers 14 ≡ f.page_fault_handler

init_kheap-IsHeap :
    (lock : ℕ) (mem : Mem) (array : ℕ → ℕ)
    → IsFenced heap_range mem
    → (k : Kernel) × (init_kheap lock mem array ≡ ok k)
      × IsHeap heap_range k.state (hole_of 0x27FFEF ∷ [])
      × (k.kheap_lock ≡ 0)
unfolding init_kheap yieldlock_init
init_kheap-IsHeap lock mem array fence =
    let (s, e, v) =
      create_kheap-IsHeap mem array kheap_start (kheap_start + kheap_min_size) kheap_max 0 0 refl
        refl (omega arith) (omega arith) (omega arith) fence in
    (record { state = s; kheap_lock = 0 }, rw e, v, refl)

pub heap_range-IsRoomy : IsRoomy heap_range
heap_range-IsRoomy = record { below = omega arith; growth = omega arith; index = omega arith }

-- The machine in its endless loop, with what the heap's test and the page faults leave.
abbrev finished : Found → Machine → Kernel → ℕ → Memory → Machine
finished f m heap seed memory =
    let cpu =
      init_timer (idt_init f.io_delay_port f.isr f.irq f.master_mask f.slave_mask m.cpu)
        f.timer_callback timer_frequency in
    record {
      vga = clear m.vga;
      tables = gdt_init f.tss_address;
      cpu = (vmm_init f.page_fault_handler cpu).0;
      boot_info = boot_info_init f.buffer f.sections m.boot_info;
      vmm = memory.vmm;
      pmm = memory.pmm;
      heap = heap;
      kernel_directory_phys_addr = (vmm_init f.page_fault_handler cpu).1;
      seed = seed;
    }

-- An access of the heap's region, by the creation of the heap or by its test, for which the
-- allocator that `pmm_init` left had no page any more.
pub data RanOut (f : Found) (m : Machine) : Type 0 where
  creating :
      (booted : Pmm)
      → init (boot_info_init f.buffer f.sections m.boot_info) m.pmm ≡ some booted
      → OutOfPages (record { vmm = m.vmm; pmm = booted }) f.created
      → RanOut f m
  testing :
      (booted : Pmm) (paged : Memory)
      → init (boot_info_init f.buffer f.sections m.boot_info) m.pmm ≡ some booted
      → access_all (record { vmm = m.vmm; pmm = booted }) f.created ≡ ok paged
      → OutOfPages paged f.tested
      → RanOut f m

-- Where no entry of the loader's map that is copied and not the kernel reaches 2 ^ 43, the bitmap
-- holds bytes, neither the word before the heap's blocks nor one between the heap's end and its
-- limit is a magic number in the fresh pages, the directory maps itself, the page tables of the
-- heap's region are there and outside the window, the heap's accesses lie in that region, and with
-- fuel for 802 rounds of a walk over the heap's blocks: `main` either panics, and then the bitmap
-- of pages is too small for the map, or an access of the heap finds neither a translation nor a
-- free page of RAM; or it gets through the stress test of the heap to its endless loop. Then it has
-- the copy of the loader's map; from the allocator in the state that `pmm_init` promises for that
-- copy, page faults have put a page behind every address of the heap that was accessed, with no
-- translation and no page in use lost, the allocator valid and the directory mapping itself; the
-- handler stands at vector 14, the heap is well formed and one hole, and its lock is free.
pub main-Ready :
    (fuel : ℕ) (f : Found) (m : Machine)
    → 802 ≤ fuel
    → AreSmall (boot_info_init f.buffer f.sections m.boot_info)
    → f.sections.kernel_phys_base + f.sections.kernel_size < 2 ^ 43
    → AreBytes m.pmm.bitmap
    → IsFenced heap_range f.mem
    → IsSelfMapped m.vmm
    → HasTables kheap_start kheap_max m.vmm
    → AreIn kheap_start kheap_max f.created
    → AreIn kheap_start kheap_max f.tested
    → ((main fuel f m ≡ panic)
        × (max_bitmap_size_bytes
            < (reset (boot_info_init f.buffer f.sections m.boot_info) m.pmm).bitmap_size_bytes))
      ⊎ (((main fuel f m ≡ panic) × RanOut f m)
          ⊎ ((m' : Machine) × (main fuel f m ≡ ok m') × Ready f m m'))
unfolding main vmm_init register_interrupt_handler
main-Ready fuel f m enough small kernel bytes fence self tables accesses accesses' =
    let copied = boot_info_init-Copied f.buffer f.sections m.boot_info in
    let kernel' : (boot_info_init f.buffer f.sections m.boot_info).kernel_sections.kernel_phys_base
          + (boot_info_init f.buffer f.sections m.boot_info).kernel_sections.kernel_size
        < 2 ^ 43 =
      subst (λ k. k.kernel_phys_base + k.kernel_size < 2 ^ 43) (sym copied.1) kernel in
    elim (init-Booted (boot_info_init f.buffer f.sections m.boot_info) small kernel' m.pmm bytes) [
      | inl (e, inl wrong) ↦ absurd (wrong copied.0)
      | inl (e, inr big) ↦ inl (rw (main, e), big)
      | inr (pmm, e, right, booted) ↦
          let (heap, e', v, lock) = init_kheap-IsHeap m.heap.kheap_lock f.mem f.array fence in
          let test =
            kheap_killer-Survived heap_range heap_range-IsRoomy fuel enough f.rounds heap m.seed
              0x27FFEF v lock in
          let first : Memory = record { vmm = m.vmm; pmm = pmm } in
          elim (access_all-Outcome first kheap_start kheap_max f.created booted.valid self tables
            accesses) [
              | inr (out, why) ↦ inr (inl (rw (main, e, e', out) refl, creating pmm e why))
              | inl (paged, got, there) ↦
                  elim (access_all-Outcome paged kheap_start kheap_max f.tested there.valid
                    there.self_mapped
                    (HasTables-kept kheap_start kheap_max m.vmm paged.vmm there.same tables)
                    accesses') [
                      | inr (out, why) ↦ inr (
                          inl (
                            rw (main, e, e', got, test.result, out) refl,
                            testing pmm paged e got why,
                          ))
                      | inl (memory, got', there') ↦ inr (
                          inr (
                            finished f m test.kernel test.seed memory,
                            rw (main, e, e', got, test.result, got') refl,
                            record {
                              boot_info = refl;
                              booted = pmm;
                              promised = booted;
                              paged = paged;
                              created = there;
                              tested = there';
                              end = test.end;
                              size = test.size;
                              heap = test.heap;
                              lock = test.lock;
                              handler = refl;
                            },
                          ))
                    ]
            ]
    ]
