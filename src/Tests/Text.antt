-- ===== src/Tests/Text.antt =====
-- The screen, and numbers and formats as text.
use os_learning.Base.{
  ℕ, ◌+◌, ◌-◌, ◌*◌, ◌^◌, ◌≤◌, ◌<◌, ◌≡◌, refl, List, [], ◌∷◌, some, arith, ltb, if◌then◌else◌, inl,
  false, ◌⊎◌,
}
use os_learning.Vga.{Vga, putc, write}
use os_learning.Vga.Screen.{IsOnScreen, IsSynced, putc-IsOnScreen}
use os_learning.Vga.Digits.{
  utoa, itoa, digits_loop, digit_char, ulltoa, powers_loop, subtract_power, human_size, scale_loop,
}
use os_learning.Vga.Reading.{parse}
use os_learning.Vga.Numbers.{parse-itoa}
use os_learning.Base.Codes.{codes}
use os_learning.Earlier.{old_printf, old_format, old_convert, old_itoa, old_digits, swap_loop}
use os_learning.Earlier.Texts.{old_itoa-itoa}
use os_learning.Earlier.Messages.{old_printf-printf}
use os_learning.Earlier.First.{first_itoa}
use os_learning.Earlier.First.Fits.{Fits, first_itoa-Fits}
use os_learning.Vga.Longs.{parse-ulltoa}
use os_learning.Vga.Printf.{printf, Arg, word, text, format, plain, step, finish, convert}

abbrev pub screen : Vga
screen = record {
  buf = λ i. if ltb i 2000 then 7 * 256 + 32 else 0;
  cursor_row = 3;
  cursor_col = 10;
  current_color = 7;
  hardware = 250;
}

abbrev full_screen : Vga
full_screen = record screen { cursor_row = 24; cursor_col = 79 }

pub screen-IsOnScreen : IsOnScreen screen
screen-IsOnScreen = record { row = omega arith; col = omega arith }

putc-IsOnScreen_example :
    IsOnScreen (putc screen 9)
    × IsSynced (putc screen 9)
    × ((i : ℕ) → 2000 ≤ i → (putc screen 9).buf i ≡ screen.buf i)
putc-IsOnScreen_example = putc-IsOnScreen screen 9 screen-IsOnScreen

parse-itoa_example :
    ((0xFFFFFFFE < 2 ^ 31) × (parse 10 (itoa 0xFFFFFFFE 10 64) ≡ some 0xFFFFFFFE))
    ⊎ ((2 ^ 31 ≤ 0xFFFFFFFE)
        × ((digits : List ℕ) × (itoa 0xFFFFFFFE 10 64 ≡ b'-' ∷ digits)
            × (parse 10 digits ≡ some (2 ^ 32 - 0xFFFFFFFE))))
parse-itoa_example = parse-itoa 0xFFFFFFFE (omega arith)

minus_two : itoa 0xFFFFFFFE 10 64 ≡ b'-' ∷ b'2' ∷ []
unfolding itoa utoa digits_loop digit_char
minus_two = refl

large :
    ulltoa 10000000002 10 64
    ≡ b'1' ∷ b'0' ∷ b'0' ∷ b'0' ∷ b'0' ∷ b'0' ∷ b'0' ∷ b'0' ∷ b'0' ∷ b'0' ∷ b'2' ∷ []
unfolding ulltoa powers_loop subtract_power
large = refl

one_and_a_half : human_size 1536 64 ≡ b'1' ∷ b'.' ∷ b'5' ∷ b'K' ∷ []
unfolding human_size scale_loop ulltoa powers_loop subtract_power
one_and_a_half = refl

shown :
    format plain (b'a' ∷ b'%' ∷ b'x' ∷ b'%' ∷ b's' ∷ []) (word 31 ∷ text (some (b'z' ∷ [])) ∷ [])
    ≡ some (b'a' ∷ b'1' ∷ b'f' ∷ b'z' ∷ [])
unfolding format step finish convert utoa digits_loop digit_char
shown = refl

-- A message of the earlier step's `main`.
abbrev greeting : List ℕ
greeting = codes "Value: %d, Hex: 0x%x, Char: %c, String: %s\n"

abbrev greeting_args : List Arg
greeting_args = word 1234 ∷ word 1234 ∷ word b'A' ∷ text (some (codes "VGA printf OK!")) ∷ []

abbrev greeted : List ℕ
greeted = codes "Value: 1234, Hex: 0x4d2, Char: A, String: VGA printf OK!\n"

greeting-greeted : old_format (λ i. 0) false greeting greeting_args ≡ some greeted
unfolding old_format old_convert old_itoa old_digits swap_loop digit_char
greeting-greeted = refl

old_printf-printf_example :
    (old_printf (λ i. 0) screen greeting greeting_args ≡ some (write screen greeted))
    × (printf screen greeting greeting_args ≡ some (write screen greeted))
old_printf-printf_example =
    old_printf-printf (λ i. 0) screen greeting greeting_args greeted
      (refl, (refl, (refl, (refl, tt)))) greeting-greeted refl

old_itoa-itoa_example : old_itoa 0xFFFFFB2E (λ i. 7) 10 64 ≡ itoa 0xFFFFFB2E 10 64
old_itoa-itoa_example = old_itoa-itoa 0xFFFFFB2E 10 64 (λ i. 7) (inl refl)

parse-ulltoa_example : parse 10 (ulltoa (2 ^ 64 - 1) 10 64) ≡ some (2 ^ 64 - 1)
parse-ulltoa_example = parse-ulltoa (2 ^ 64 - 1) 10 (inl refl) (omega arith)

first_itoa-Fits_example : Fits (2 ^ 31) 10 (λ i. 7) (first_itoa 11 (2 ^ 31) (λ i. 7) 10)
first_itoa-Fits_example =
    first_itoa-Fits (2 ^ 31) 10 (λ i. 7) (inl refl) (omega arith) 11 (omega arith)
