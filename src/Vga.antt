-- ===== src/Vga.antt =====
-- The text screen, 08.kernel-mm/kernel/drivers/vga.c: the cells of the buffer, the cursor and the
-- current colour. The port writes that move the hardware cursor are the last position sent.
pub mod Screen
pub mod Digits
pub mod Reading
pub mod Numbers
pub mod Longs
pub mod Printf
pub mod Printed
use os_learning.Base.{
  ℕ, zero, suc, ◌+◌, ◌-◌, ◌*◌, ◌/◌, ◌%◌, ◌^◌, Bool, true, false, not, ◌&&◌, List, [], ◌∷◌, ltb, leb,
  ◌==◌, if◌then◌else◌, update,
}

abbrev pub vga_width : ℕ
vga_width = 80

abbrev pub vga_height : ℕ
vga_height = 25

pub record Vga : Type 0 where
  pub buf : ℕ → ℕ
  pub cursor_row : ℕ
  pub cursor_col : ℕ
  pub current_color : ℕ
  pub hardware : ℕ

-- `vga_sync_cursor`, with `cursorLocation` as its two bytes put together.
unfoldable pub sync_cursor : Vga → Vga
sync_cursor s =
    let location = (s.cursor_row * 80 + s.cursor_col) % 65536 in
    record s { hardware = location / 256 * 256 + location % 256 }

unfoldable pub move_cursor : Vga → ℕ → ℕ → Vga
move_cursor s row col =
    if ltb row vga_height && ltb col vga_width
    then sync_cursor (record s { cursor_row = row; cursor_col = col })
    else s

-- `(current_color << 8) | c` as a `uint16_t`. A `char` is signed, so one from 128 on is negative
-- and its sign fills the upper byte.
unfoldable pub cell : ℕ → ℕ → ℕ
cell color c = if ltb c 128 then color * 256 + c else 65280 + c

unfoldable pub clear : Vga → Vga
clear s = sync_cursor (record s {
  buf = λ i. if ltb i 2000 then cell s.current_color b' ' else s.buf i;
  cursor_row = 0;
  cursor_col = 0;
})

-- Every row moves up, and the last one is blank.
unfoldable pub scroll : Vga → Vga
scroll s = record s {
  buf = λ i.
      if ltb i 1920
      then s.buf (i + 80)
      else if ltb i 2000
      then cell s.current_color b' '
      else s.buf i;
  cursor_row = 24;
}

-- The cursor's offset in the buffer.
abbrev pub position : Vga → ℕ
position s = s.cursor_row * 80 + s.cursor_col

abbrev pub wrap_line : Vga → ℕ → Vga
wrap_line s col =
    if leb vga_width col
    then record s { cursor_row = (s.cursor_row + 1) % 256; cursor_col = 0 }
    else record s { cursor_col = col }

-- The branches of `vga_putc` before the screen scrolls.
unfoldable pub put_glyph : Vga → ℕ → Vga
put_glyph s c =
    if c == 10
    then record s { cursor_row = (s.cursor_row + 1) % 256; cursor_col = 0 }
    else if c == 13
    then record s { cursor_col = 0 }
    else if c == 9
    then wrap_line s ((s.cursor_col + 4) / 4 * 4 % 256)
    else if c == 8
    then (if ltb 0 s.cursor_col
        then record s {
          cursor_col = s.cursor_col - 1;
          buf = update s.buf (s.cursor_row * 80 + (s.cursor_col - 1)) (cell s.current_color b' ');
        }
        else s)
    else let written = record s { buf = update s.buf (position s) (cell s.current_color c) } in
      wrap_line written ((s.cursor_col + 1) % 256)

unfoldable pub putc : Vga → ℕ → Vga
putc s c =
    let put = put_glyph s c in
    sync_cursor (if leb vga_height put.cursor_row then scroll put else put)

-- `vga_write`, for the characters before the NUL.
unfoldable pub write : Vga → List ℕ → Vga
write s [] = s
write s (c ∷ cs) = write (putc s c) cs

unfoldable pub set_color : Vga → ℕ → Vga
set_color s color = record s { current_color = color }
