-- ===== src/Vmm/Entries.antt =====
-- The window: what the C code reaches through it is the entry that the processor uses.
use os_learning.Base.{ℕ, ◌+◌, ◌*◌, ◌^◌, ◌<◌, ◌≡◌, true, arith, if◌then◌else◌, some, none}
use os_learning.Vmm.{
  Vmm, walk, get_page, dir_index, table_index, page_dir_virtual, page_tables_virtual_addr,
}

-- Directory entry 769 maps the directory itself, as boot/loader.S sets it up.
pub record IsSelfMapped (s : Vmm) : Type 0 where
  pub self_present : (s.frames s.directory 769).present ≡ true
  pub self_frame : (s.frames s.directory 769).frame_addr ≡ s.directory

-- The frame of the table for `virt_addr`.
abbrev pub table_frame : Vmm → ℕ → ℕ
table_frame s virt_addr = (s.frames s.directory (dir_index virt_addr)).frame_addr

module _ (s : Vmm) (self : IsSelfMapped s) where
  walk-page_dir_virtual : walk s page_dir_virtual ≡ s.directory
  unfolding walk
  walk-page_dir_virtual = ground (arith, self.self_frame)

  walk-page_tables :
      (i : ℕ)
      → i < 1024
      → walk s (page_tables_virtual_addr + i * 4096) ≡ (s.frames s.directory i).frame_addr
  unfolding walk
  walk-page_tables i h =
      let d : dir_index (page_tables_virtual_addr + i * 4096) ≡ 769 = omega arith in
      let t : table_index (page_tables_virtual_addr + i * 4096) ≡ i = omega arith in
      rw (walk, d, t, self.self_frame)

  -- For a directory that maps itself and a 32-bit address, `get_page` finds through the window the
  -- table entry that the processor itself reads, and NULL exactly where the directory entry is not
  -- present.
  pub get_page-eq :
      (virt_addr : ℕ)
      → virt_addr < 2 ^ 32
      → get_page s virt_addr ≡ (
          if (s.frames s.directory (dir_index virt_addr)).present
          then some (table_frame s virt_addr, table_index virt_addr)
          else none)
  unfolding get_page
  get_page-eq virt_addr h =
      ground (arith, walk-page_dir_virtual, walk-page_tables (dir_index virt_addr) (omega arith))
