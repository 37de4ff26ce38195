-- ===== src/Tests/Tables.antt =====
-- The virtual memory manager with the directory in frame 5 and one page table, for the first 4 MiB
-- of the kernel's half, in frame 6.
use os_learning.Base.{ℕ, ◌≡◌, refl, true, false, none, some, arith, ◌==◌, if◌then◌else◌, ◌⊎◌}
use os_learning.Vmm.{
  Entry, Vmm, zero_entry, get_phys_addr, translate, map_page, unmap_page, dir_index,
  page_fault_handler,
}
use os_learning.Vmm.Entries.{IsSelfMapped}
use os_learning.Vmm.Translate.{
  AreFrames, OutsideWindow, HasTable, Mapped, or_zero, get_phys_addr-translate, map_page-Mapped,
}
use os_learning.Vmm.Unmap.{Unmapped, unmap_page-Unmapped}
use os_learning.Vmm.Coherent.{IsCoherent, IsUnshared, map_page-IsCoherent}
use os_learning.Vmm.Fault.{Handled, page_fault_handler-Handled}
use os_learning.Tests.Pages.{two_free, two_free-IsValid}

abbrev entry_to : ℕ → Entry
entry_to frame = record zero_entry { present = true; rw = true; frame_addr = frame }

abbrev tables : ℕ → ℕ → Entry
tables frame i =
    if frame == 5
    then (if i == 769 then entry_to 5 else if i == 771 then entry_to 6 else zero_entry)
    else if frame == 6
    then (if i == 0 then entry_to 100 else zero_entry)
    else zero_entry

abbrev kernel : Vmm
kernel = record {
  directory = 5;
  frames = tables;
  tlb = λ page. if page == 0xC0C00 then some 100 else none;
}

kernel-IsSelfMapped : IsSelfMapped kernel
kernel-IsSelfMapped = record { self_present = refl; self_frame = refl }

kernel-AreFrames : AreFrames kernel
kernel-AreFrames f i = ground arith

get_phys_addr-translate_example :
    get_phys_addr kernel 0xC0C00123 ≡ or_zero (translate kernel 0xC0C00123)
get_phys_addr-translate_example =
    get_phys_addr-translate kernel 0xC0C00123 kernel-IsSelfMapped kernel-AreFrames (omega arith)

outside : OutsideWindow kernel 0xC0C01000
outside = λ e. omega (arith, e)

map_page-Mapped_example :
    (((kernel.frames kernel.directory (dir_index 0xC0C01000)).present ≡ false)
      × (map_page kernel 0xC0C01000 0x200000 3 ≡ (kernel, false)))
    ⊎ (HasTable kernel 0xC0C01000
        × Mapped kernel 0xC0C01000 0x200000 (map_page kernel 0xC0C01000 0x200000 3))
map_page-Mapped_example =
    map_page-Mapped kernel 0xC0C01000 0x200000 3 kernel-IsSelfMapped (omega arith) (omega arith)
      refl outside

unmap_page-Unmapped_example : Unmapped kernel (unmap_page kernel 0xC0C00000) 0xC0C00000
unmap_page-Unmapped_example =
    unmap_page-Unmapped kernel 0xC0C00000 kernel-IsSelfMapped (omega arith) (λ e. omega (arith, e))

unshared : IsUnshared kernel 0xC0C00000
unshared other word ne = ground arith

coherent : IsCoherent kernel
unfolding translate
coherent page f small cached = ground arith

map_page-IsCoherent_example : IsCoherent (map_page kernel 0xC0C00000 0x200000 3).0
map_page-IsCoherent_example =
    map_page-IsCoherent kernel 0xC0C00000 kernel-IsSelfMapped (omega arith) (λ e. omega (arith, e))
      unshared coherent 0x200000 3

page_fault_handler-Handled_example :
    Handled
      (record { vmm = kernel; pmm = two_free })
      0xC0C01234
      (page_fault_handler (record { vmm = kernel; pmm = two_free }) 0xC0C01234)
page_fault_handler-Handled_example =
    page_fault_handler-Handled (record { vmm = kernel; pmm = two_free }) 0xC0C01234 two_free-IsValid
      kernel-IsSelfMapped (omega arith) (λ e. omega (arith, e))

-- The directory in frame 5 is the current one already.
