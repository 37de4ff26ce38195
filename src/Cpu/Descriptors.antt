-- ===== src/Cpu/Descriptors.antt =====
-- A descriptor keeps the base, the limit and the flags that it was made from.
use Prim.Native.Nat.{bit_and, bit_or}
use os_learning.Base.{
  ℕ, ◌/◌, ◌%◌, ◌^◌, ◌≤◌, ◌<◌, ◌≡◌, refl, ap, Bool, true, false, not, ◌&&◌, ◌==◌, arith,
}
use os_learning.Base.Bits.{passes, passes-at}
use os_learning.Cpu.Gdt.{
  GdtEntry, gate, gdt_set_gate, entry_base, entry_limit, entry_is_4k, entry_is_32bit, gdt_init,
  get_access_type, AccessType, code_readable, data_read_write, tss_available, not_present,
  entry_dpl,
}

-- The granularity byte, over every high limit nibble and every byte of flags.
abbrev gran_row : ℕ → ℕ → Bool
gran_row l g =
    (bit_and (bit_or l (bit_and g 0xF0)) 0x0F == l)
    && ((bit_and (bit_or l (bit_and g 0xF0)) 0x80 == bit_and g 0x80)
        && (bit_and (bit_or l (bit_and g 0xF0)) 0x40 == bit_and g 0x40))

gran_table : passes (λ l. passes (λ g. gran_row l g) 256) 16 ≡ true
unfolding passes
gran_table = refl

gran_row-true : (l g : ℕ) → l < 16 → g < 256 → gran_row l g ≡ true
gran_row-true l g hl hg =
    passes-at (λ g. gran_row l g) 256 g hg
      (passes-at (λ l. passes (λ g. gran_row l g) 256) 16 l hl gran_table)

-- For a 32-bit base and a byte of flags, what `print_gdt_entry` reads out of the entry that
-- `gdt_set_gate` wrote is what went in: the base, the low 20 bits of the limit, the access byte,
-- the granularity and the operand size; and no other entry changes.
pub gdt_set_gate-decode :
    (gdt : ℕ → GdtEntry) (num base limit access gran : ℕ)
    → base < 2 ^ 32
    → gran < 256
    → let e = gdt_set_gate gdt num base limit access gran num in
      (entry_base e ≡ base)
      × (entry_limit e ≡ limit % 2 ^ 20)
      × (e.access ≡ access)
      × (entry_is_4k e ≡ not (bit_and gran 0x80 == 0))
      × (entry_is_32bit e ≡ not (bit_and gran 0x40 == 0))
      × ((i : ℕ) → (num == i) ≡ false → gdt_set_gate gdt num base limit access gran i ≡ gdt i)
unfolding gdt_set_gate gate entry_base entry_limit entry_is_4k entry_is_32bit
gdt_set_gate-decode gdt num base limit access gran hb hg =
    let same : (num == num) ≡ true = ground arith in
    let row = gran_row-true (limit / 65536 % 16) gran (omega arith) hg in
    rw same (ground arith, ground arith, refl, ground arith, ground arith, λ i ne. rw ne)

-- What an entry describes: base, limit, type, privilege level, granularity and operand size.
abbrev Segment : Type 0
Segment = ℕ × ℕ × AccessType × ℕ × Bool × Bool

unfoldable pub describe : GdtEntry → Segment
describe e = (
  entry_base e,
  entry_limit e,
  get_access_type e.access,
  entry_dpl e,
  entry_is_4k e,
  entry_is_32bit e,
)

-- Wherever below 2 ^ 32 the TSS lies, `gdt_init` makes flat code and data segments for the kernel
-- and, at privilege level 3, for the user, the 32 KiB video segment, and the TSS descriptor at its
-- address; entry 0 and everything from entry 7 on is not present.
pub gdt_init-segments :
    (tss_address : ℕ)
    → tss_address < 2 ^ 32
    → let g = (gdt_init tss_address).gdt in
      (describe (g 1) ≡ (0, 0xFFFFF, code_readable, 0, true, true))
      × (describe (g 2) ≡ (0, 0xFFFFF, data_read_write, 0, true, true))
      × (describe (g 3) ≡ (0xB8000, 0x7FFF, data_read_write, 0, false, false))
      × (describe (g 4) ≡ (0, 0xFFFFF, code_readable, 3, true, true))
      × (describe (g 5) ≡ (0, 0xFFFFF, data_read_write, 3, true, true))
      × (describe (g 6) ≡ (tss_address, 103, tss_available, 0, false, true))
      × (get_access_type (g 0).access ≡ not_present)
      × ((i : ℕ) → 7 ≤ i → get_access_type (g i).access ≡ not_present)
unfolding gdt_init gdt_set_gate gate describe entry_base entry_limit entry_is_4k entry_is_32bit
    entry_dpl get_access_type
gdt_init-segments tss_address h = (
  refl,
  refl,
  refl,
  refl,
  refl,
  ap (λ (b : ℕ). (b, 103, tss_available, 0, false, true)) (omega arith),
  refl,
  λ i hi. ground arith,
)
