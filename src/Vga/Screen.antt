-- ===== src/Vga/Screen.antt =====
-- The cursor stays on the screen, nothing outside the buffer is written, and what each character
-- does to the cells.
use os_learning.Base.{
  ℕ, ◌+◌, ◌-◌, ◌*◌, ◌%◌, ◌≤◌, ◌<◌, ◌≡◌, refl, ◌∙◌, ◌≢◌, false, List, [], ◌∷◌, leb, ◌==◌, update,
  arith, inl, inr, Bool-cases,
}
use os_learning.Vga.{Vga, sync_cursor, cell, scroll, position, put_glyph, putc, write}

pub record IsOnScreen (s : Vga) : Type 0 where
  pub row : s.cursor_row < 25
  pub col : s.cursor_col < 80

-- The hardware cursor stands where the driver's does.
abbrev pub IsSynced : Vga → Type 0
IsSynced s = s.hardware ≡ position s

put_glyph-near :
    (s : Vga) (c : ℕ)
    → IsOnScreen s
    → ((put_glyph s c).cursor_row ≤ 25) × ((put_glyph s c).cursor_col < 80)
unfolding put_glyph
put_glyph-near s c v = ground arith

put_glyph-outside : (s : Vga) (c i : ℕ) → IsOnScreen s → 2000 ≤ i → (put_glyph s c).buf i ≡ s.buf i
unfolding put_glyph
put_glyph-outside s c i v h = ground arith

-- With the cursor on the screen, `vga_putc` keeps it there, leaves the hardware cursor at its
-- position, and writes no cell beyond the 2000 of the screen.
pub putc-IsOnScreen :
    (s : Vga) (c : ℕ)
    → IsOnScreen s
    → IsOnScreen (putc s c)
      × IsSynced (putc s c)
      × ((i : ℕ) → 2000 ≤ i → (putc s c).buf i ≡ s.buf i)
unfolding putc scroll sync_cursor
putc-IsOnScreen s c v =
    let near = put_glyph-near s c v in
    elim (Bool-cases (leb 25 (put_glyph s c).cursor_row)) [
      | inl over ↦ rw over (
        record { row = omega arith; col = near.1 },
        omega arith,
        λ i h. ground (arith, put_glyph-outside s c i v h),
      )
      | inr under ↦ rw under (
        record { row = ground arith; col = near.1 },
        ground arith,
        λ i h. put_glyph-outside s c i v h,
      )
    ]

-- With the cursor on the screen, `vga_write` keeps it there and writes no cell beyond the 2000 of
-- the screen, for every string.
pub write-IsOnScreen :
    (s : Vga) (cs : List ℕ)
    → IsOnScreen s
    → IsOnScreen (write s cs) × ((i : ℕ) → 2000 ≤ i → (write s cs).buf i ≡ s.buf i)
unfolding write
write-IsOnScreen s [] v = (v, λ i h. refl)
write-IsOnScreen s (c ∷ cs) v =
    let one = putc-IsOnScreen s c v in
    let rest = write-IsOnScreen (putc s c) cs one.0 in (rest.0, λ i h. rest.1 i h ∙ one.2 i h)

-- A character that is shown as itself.
abbrev pub IsPlain : ℕ → Type 0
IsPlain c = (32 ≤ c) × (c < 128)

-- With the cursor on the screen before the last cell, a plain character appears at the cursor in
-- the current colour, the cursor goes to the next cell, and no other cell changes.
pub putc-IsPlain :
    (s : Vga) (c : ℕ)
    → IsOnScreen s
    → IsPlain c
    → position s < 1999
    → ((putc s c).buf (position s) ≡ s.current_color * 256 + c)
      × (position (putc s c) ≡ position s + 1)
      × ((i : ℕ) → i ≢ position s → (putc s c).buf i ≡ s.buf i)
unfolding putc put_glyph sync_cursor scroll cell
putc-IsPlain s c v plain inside = (ground arith, ground arith, λ i ne. ground arith)

-- A plain character at the last cell scrolls the screen: every row moves up by one, with the
-- character at the end of the last but one, the last row is blank in the current colour, and the
-- cursor is at its start.
pub putc_scrolls :
    (s : Vga) (c : ℕ)
    → IsPlain c
    → s.cursor_row ≡ 24
    → s.cursor_col ≡ 79
    → ((i : ℕ) → i < 1919 → (putc s c).buf i ≡ s.buf (i + 80))
      × ((putc s c).buf 1919 ≡ s.current_color * 256 + c)
      × ((i : ℕ) → 1920 ≤ i → i < 2000 → (putc s c).buf i ≡ s.current_color * 256 + 32)
      × ((putc s c).cursor_row ≡ 24)
      × ((putc s c).cursor_col ≡ 0)
unfolding putc put_glyph sync_cursor scroll cell
putc_scrolls s c plain row col =
    (λ i h. ground arith, ground arith, λ i lo hi. ground arith, ground arith, ground arith)

putc-inside :
    (s : Vga) (c : ℕ)
    → IsOnScreen s
    → IsPlain c
    → s.cursor_col < 79
    → putc s c
      ≡ sync_cursor (record s {
        buf = update s.buf (position s) (cell s.current_color c);
        cursor_col = s.cursor_col + 1;
      })
unfolding putc put_glyph
putc-inside s c v plain room =
    let e : (s.cursor_col + 1) % 256 ≡ s.cursor_col + 1 = omega arith in
    let a : (c == 10) ≡ false = ground arith in
    let b : (c == 13) ≡ false = ground arith in
    let d : (c == 9) ≡ false = ground arith in
    let g : (c == 8) ≡ false = ground arith in
    let w : leb 80 (s.cursor_col + 1) ≡ false = ground arith in
    let r : leb 25 s.cursor_row ≡ false = ground arith in rw (a, b, d, g, e, w, r)

-- With the cursor on the screen before the last column, a backspace behind a plain character
-- returns the cursor to where it was, leaves that cell blank in the current colour, and leaves
-- every other cell as it was before both.
pub backspace-putc :
    (s : Vga) (c : ℕ)
    → IsOnScreen s
    → IsPlain c
    → s.cursor_col < 79
    → (position (putc (putc s c) 8) ≡ position s)
      × ((putc (putc s c) 8).buf (position s) ≡ s.current_color * 256 + 32)
      × ((i : ℕ) → i ≢ position s → (putc (putc s c) 8).buf i ≡ s.buf i)
unfolding put_glyph putc sync_cursor cell
backspace-putc s c v plain room =
    let r : leb 25 s.cursor_row ≡ false = ground arith in
    let back : s.cursor_col + 1 - 1 ≡ s.cursor_col = omega arith in
    rw (putc-inside s c v plain room)
      (ground arith, ground (arith, back), λ i ne. ground (arith, back))
