-- ===== src/Tests/Dumps.antt =====
-- The dumps of the pages, on 514 of which 512 and 513 are free, and of the descriptors.
use os_learning.Base.{◌*◌, ◌+◌, ◌≡◌, refl, false, none, [], ◌∷◌, arith, ltb, ◌&&◌}
use os_learning.Base.Bits.{byte_test}
use os_learning.Pmm.{test_bit}
use os_learning.Pmm.Dump.{
  region, regions_loop, dump_regions, dump_free, dump, dump_bitmap_line, bitmap_line,
}
use os_learning.Pmm.Listing.{listed, wanted, dump_regions-listed}
use os_learning.Cpu.Gdt.{gdt_init}
use os_learning.Dumps.{Selectors, gdt_dump}
use os_learning.Dumps.Outcome.{Dumped, gdt_dump-Dumped}
use os_learning.Tests.Pages.{two_free}
use os_learning.Tests.Text.{screen, screen-IsOnScreen}

dump_regions-listed_example :
    listed (dump_regions two_free false) (512 * 4096) ≡ (ltb 512 514 && wanted two_free false 512)
dump_regions-listed_example = dump_regions-listed two_free false 512 (omega arith) (omega arith)

free_region :
    dump_free two_free ≡ record { first = 0x200000; last = 0x201FFF; kib = 8; mib = none } ∷ []
unfolding dump_free dump_regions regions_loop region test_bit byte_test
free_region = refl

last_line : dump_bitmap_line two_free 512 (512 + 32) ≡ (0x200000, b'.' ∷ b'.' ∷ [])
unfolding dump_bitmap_line bitmap_line test_bit byte_test
last_line = refl

free_kept : (dump two_free).0.free ≡ 2
unfolding dump
free_kept = refl

-- The processor's registers as `gdt_init` leaves them.
abbrev selectors : Selectors
selectors = record {
  base = 0xC0808000;
  limit = 55;
  cs = 8;
  ds = 16;
  es = 16;
  fs = 16;
  gs = 16;
  ss = 16;
}

gdt_dump-Dumped_example : Dumped screen (gdt_dump (gdt_init 0xC0806000) selectors screen)
gdt_dump-Dumped_example = gdt_dump-Dumped (gdt_init 0xC0806000) selectors screen screen-IsOnScreen
