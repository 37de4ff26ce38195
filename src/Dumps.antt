-- ===== src/Dumps.antt =====
-- `boot_info_dump` of mem/boot_info.c and `gdt_dump` of mem/gdt.c: what they print on the screen.
pub mod Outcome
use os_learning.Base.{ℕ, zero, suc, ◌+◌, Bool, List, [], ◌∷◌, Option, none, some, if◌then◌else◌}
use os_learning.Base.Codes.{codes}
use os_learning.BootInfo.{BootInfo, E820Entry}
use os_learning.Cpu.Gdt.{
  GdtEntry, Tables, AccessType, not_present, code_readable, code_execute_only, data_read_write,
  data_read_only, tss_available, tss_busy, system_other, get_access_type, entry_base, entry_limit,
  entry_dpl, entry_is_4k, entry_is_32bit,
}
use os_learning.Vga.{Vga}
use os_learning.Vga.Printf.{Arg, word, long, text, printf}

-- A further message, where those before it were defined.
abbrev pub then_printf : Option Vga → List ℕ → List Arg → Option Vga
then_printf none fmt args = none
then_printf (some s) fmt args = printf s fmt args

unfoldable pub dump_entries : BootInfo → ℕ → ℕ → Option Vga → Option Vga
dump_entries b i zero s = s
dump_entries b i (suc left) s =
    let e = b.e820_map i in
    dump_entries b (i + 1) left (
      then_printf s (codes " [%d] base=0x%llx len=0x%llx type=%d\n")
        (word i ∷ long e.addr ∷ long e.size ∷ word e.type ∷ []))

unfoldable pub boot_info_dump : BootInfo → Vga → Option Vga
boot_info_dump b s =
    let k = b.kernel_sections in
    let s1 = then_printf (some s) (codes "BootInfo (magic=0x%x)\n") (word b.magic ∷ []) in
    let s2 = then_printf s1 (codes "E820 entries: %d\n") (word b.e820_count ∷ []) in
    let s3 = dump_entries b 0 b.e820_count s2 in
    let s4 = then_printf s3 (codes "Kernel Sections:\n") [] in
    let s5 =
      then_printf s4 (codes " text:   [0x%x - 0x%x)\n")
        (word k.text_start ∷ word k.text_end ∷ []) in
    let s6 =
      then_printf s5 (codes " rodata: [0x%x - 0x%x)\n")
        (word k.rodata_start ∷ word k.rodata_end ∷ []) in
    let s7 =
      then_printf s6 (codes " data:   [0x%x - 0x%x)\n")
        (word k.data_start ∷ word k.data_end ∷ []) in
    let s8 =
      then_printf s7 (codes " bss:    [0x%x - 0x%x)\n") (word k.bss_start ∷ word k.bss_end ∷ []) in
    then_printf s8 (codes " kernel_end=%x size=%h\n") (word k.kernel_end ∷ word k.kernel_size ∷ [])

abbrev pub type_name : AccessType → List ℕ
type_name not_present = codes "Not Present"
type_name code_readable = codes "Code, Readable"
type_name code_execute_only = codes "Code, Execute-Only"
type_name data_read_write = codes "Data, Read/Write"
type_name data_read_only = codes "Data, Read-Only"
type_name tss_available = codes "TSS (Available 32-bit)"
type_name tss_busy = codes "TSS (Busy 32-bit)"
type_name system_other = codes "System (Other)"

unfoldable pub get_access_type_str : ℕ → List ℕ
get_access_type_str access = type_name (get_access_type access)

unfoldable pub print_gdt_entry : ℕ → GdtEntry → Option Vga → Option Vga
print_gdt_entry i e s =
    let head = then_printf s (codes "GDT[%d]: Base=0x%x, Limit=0x%x, Access=0x%x, Gran=0x%x\n") (
      word i
      ∷ word (entry_base e)
      ∷ word (entry_limit e)
      ∷ word e.access
      ∷ word e.granularity
      ∷ []) in
    then_printf head (codes "        -> Type: %s, DPL=%d, Granularity=%s, Size=%s\n") (
      text (some (get_access_type_str e.access))
      ∷ word (entry_dpl e)
      ∷ text (some (if entry_is_4k e then codes "4K" else codes "1B"))
      ∷ text (some (if entry_is_32bit e then codes "32-bit" else codes "16-bit"))
      ∷ [])

abbrev pub gdt_entry_count : ℕ
gdt_entry_count = 7

unfoldable pub dump_gdt_entries : (ℕ → GdtEntry) → ℕ → ℕ → Option Vga → Option Vga
dump_gdt_entries gdt i zero s = s
dump_gdt_entries gdt i (suc left) s =
    dump_gdt_entries gdt (i + 1) left (print_gdt_entry i (gdt i) s)

-- What `gdt_ptr` and the processor's segment registers hold.
pub record Selectors : Type 0 where
  pub base : ℕ
  pub limit : ℕ
  pub cs : ℕ
  pub ds : ℕ
  pub es : ℕ
  pub fs : ℕ
  pub gs : ℕ
  pub ss : ℕ

unfoldable pub gdt_dump : Tables → Selectors → Vga → Option Vga
gdt_dump t r s =
    let s1 = then_printf (some s) (codes "\n--- GDT Dump ---\n") [] in
    let s2 =
      then_printf s1 (codes "GDT Base: 0x%x, Limit: 0x%x\n") (word r.base ∷ word r.limit ∷ []) in
    let s3 = dump_gdt_entries t.gdt 0 gdt_entry_count s2 in
    let s4 = then_printf s3 (codes "\n--- CPU Segment Registers ---\n") [] in
    let s5 =
      then_printf s4 (codes "CS: 0x%x, DS: 0x%x, ES: 0x%x\n")
        (word r.cs ∷ word r.ds ∷ word r.es ∷ []) in
    let s6 =
      then_printf s5 (codes "FS: 0x%x, GS: 0x%x, SS: 0x%x\n")
        (word r.fs ∷ word r.gs ∷ word r.ss ∷ []) in
    then_printf s6 (codes "--------------------\n") []
