-- ===== src/Cpu/Gdt.antt =====
-- `gdt_set_gate`, `gdt_init`, `tss_set_stack`, and the decoding of `print_gdt_entry`.
use Prim.Native.Nat.{bit_and, bit_or}
use os_learning.Base.{ℕ, ◌+◌, ◌*◌, ◌/◌, ◌%◌, Bool, not, ◌==◌, if◌then◌else◌, update}

pub record GdtEntry : Type 0 where
  pub limit_low : ℕ
  pub base_low : ℕ
  pub base_mid : ℕ
  pub access : ℕ
  pub granularity : ℕ
  pub base_high : ℕ

-- The fields of `struct tss_struct` that the code sets; `memset` clears the others.
pub record Tss : Type 0 where
  pub esp0 : ℕ
  pub ss0 : ℕ
  pub es : ℕ
  pub cs : ℕ
  pub ss : ℕ
  pub ds : ℕ
  pub fs : ℕ
  pub gs : ℕ
  pub iomap_base : ℕ

-- The operands of these shifts and masks are written as quotients and remainders.
unfoldable pub gate : ℕ → ℕ → ℕ → ℕ → GdtEntry
gate base limit access gran = record {
  base_low = base % 65536;
  base_mid = base / 65536 % 256;
  base_high = base / 16777216 % 256;
  limit_low = limit % 65536;
  granularity = bit_or (limit / 65536 % 16) (bit_and gran 0xF0);
  access = access;
}

unfoldable pub gdt_set_gate : (ℕ → GdtEntry) → ℕ → ℕ → ℕ → ℕ → ℕ → ℕ → GdtEntry
gdt_set_gate gdt num base limit access gran = update gdt num (gate base limit access gran)

abbrev pub zero_gdt_entry : GdtEntry
zero_gdt_entry = record {
  limit_low = 0;
  base_low = 0;
  base_mid = 0;
  access = 0;
  granularity = 0;
  base_high = 0;
}

abbrev pub zero_tss : Tss
zero_tss = record {
  esp0 = 0;
  ss0 = 0;
  es = 0;
  cs = 0;
  ss = 0;
  ds = 0;
  fs = 0;
  gs = 0;
  iomap_base = 0;
}

-- GDT_CODE_KERNEL and its kin, by the flags they combine.
abbrev pub gdt_code_kernel : ℕ
gdt_code_kernel = 0x9A

abbrev pub gdt_data_kernel : ℕ
gdt_data_kernel = 0x92

abbrev pub gdt_code_user : ℕ
gdt_code_user = 0xFA

abbrev pub gdt_data_user : ℕ
gdt_data_user = 0xF2

abbrev pub gdt_tss_avail : ℕ
gdt_tss_avail = 0x89

-- GDT_SELECTOR
abbrev pub selector : ℕ → ℕ → ℕ
selector index rpl = index * 8 + rpl % 4

abbrev pub gdt_kernel_code_sel : ℕ
gdt_kernel_code_sel = selector 1 0

abbrev pub gdt_kernel_data_sel : ℕ
gdt_kernel_data_sel = selector 2 0

-- sizeof(struct tss_struct)
abbrev pub tss_size : ℕ
tss_size = 104

pub record Tables : Type 0 where
  pub gdt : ℕ → GdtEntry
  pub tss : Tss

unfoldable pub tss_set_stack : Tables → ℕ → Tables
tss_set_stack t stack = record t { tss = record (t.tss) { esp0 = stack } }

-- `tss_address` is where the linker puts the TSS. What `gdt_flush` and `tss_flush` load is the
-- result.
unfoldable pub gdt_init : ℕ → Tables
unfolding gdt_set_gate
gdt_init tss_address =
    let g0 = gdt_set_gate (λ i. zero_gdt_entry) 0 0 0 0 0 in
    let g1 = gdt_set_gate g0 1 0 0xFFFFF gdt_code_kernel 0xC0 in
    let g2 = gdt_set_gate g1 2 0 0xFFFFF gdt_data_kernel 0xC0 in
    let g3 = gdt_set_gate g2 3 0x000B8000 0x07FFF gdt_data_kernel 0 in
    let g4 = gdt_set_gate g3 4 0 0xFFFFF gdt_code_user 0xC0 in
    let g5 = gdt_set_gate g4 5 0 0xFFFFF gdt_data_user 0xC0 in
    record {
      gdt = gdt_set_gate g5 6 tss_address 103 gdt_tss_avail 0x40;
      tss = record zero_tss {
        cs = gdt_kernel_code_sel;
        ss = gdt_kernel_data_sel;
        ds = gdt_kernel_data_sel;
        es = gdt_kernel_data_sel;
        fs = gdt_kernel_data_sel;
        gs = gdt_kernel_data_sel;
        ss0 = gdt_kernel_data_sel;
        esp0 = 0xEFFFFFF0;
        iomap_base = tss_size;
      };
    }

pub data AccessType : Type 0 where
  not_present code_readable code_execute_only data_read_write data_read_only : AccessType
  tss_available tss_busy system_other : AccessType

-- `access & bit`
abbrev bit_on : ℕ → ℕ → Bool
bit_on access bit = not (bit_and access bit == 0)

unfoldable pub get_access_type : ℕ → AccessType
get_access_type access =
    if not (bit_on access 0x80)
    then not_present
    else if bit_on access 0x10
    then (if bit_on access 0x08
        then (if bit_on access 0x02 then code_readable else code_execute_only)
        else if bit_on access 0x02
        then data_read_write
        else data_read_only)
    else if bit_and access 0x0F == 0x9
    then tss_available
    else if bit_and access 0x0F == 0xB
    then tss_busy
    else system_other

-- What `print_gdt_entry` reads out of an entry. The operands of its `|` share no bit.
unfoldable pub entry_base : GdtEntry → ℕ
entry_base e = e.base_low + e.base_mid * 65536 + e.base_high * 16777216

unfoldable pub entry_limit : GdtEntry → ℕ
entry_limit e = e.limit_low + bit_and e.granularity 0x0F * 65536

unfoldable pub entry_dpl : GdtEntry → ℕ
entry_dpl e = e.access / 32 % 4

unfoldable pub entry_is_4k : GdtEntry → Bool
entry_is_4k e = bit_on e.granularity 0x80

unfoldable pub entry_is_32bit : GdtEntry → Bool
entry_is_32bit e = bit_on e.granularity 0x40
