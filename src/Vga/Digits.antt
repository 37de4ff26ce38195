-- ===== src/Vga/Digits.antt =====
-- `vga_utoa`, `vga_itoa`, `vga_ulltoa` and `vga_human_size`: numbers as text. A buffer is the list
-- of its characters before the NUL; writing past its end is what `room` prevents.
use os_learning.Base.{
  ℕ, zero, suc, ◌+◌, ◌-◌, ◌*◌, ◌/◌, ◌%◌, ◌^◌, Bool, true, false, ◌&&◌, List, [], ◌∷◌, ◌++◌, ltb,
  leb, ◌==◌, if◌then◌else◌, length,
}
use mathlib.Core.List.{reverse}

-- `(digit < 10) ? '0' + digit : 'a' + (digit - 10)`
unfoldable pub digit_char : ℕ → ℕ
digit_char digit = if ltb digit 10 then b'0' + digit else b'a' + (digit - 10)

-- The `do … while (value != 0)` of both bases: the characters in the order they are written, the
-- lowest digit first. `room` is how many fit before `end`, and bounds the rounds.
unfoldable pub digits_loop : ℕ → ℕ → ℕ → List ℕ
digits_loop base value zero = []
digits_loop base value (suc room) =
    let rest = digits_loop base (value / base) room in
    let more = if value / base == 0 then [] else rest in digit_char (value % base) ∷ more

-- What the buffer of `buf_size` bytes holds as a string afterwards. Base 10 and base 16 differ only
-- in how the source takes the digit and divides.
unfoldable pub utoa : ℕ → ℕ → ℕ → List ℕ
utoa value base buf_size =
    if buf_size == 0
    then []
    else let room = buf_size - 1 in
      if value == 0
      then (if ltb 0 room then b'0' ∷ [] else [])
      else if base == 16
      then reverse (digits_loop 16 value room)
      else if base == 10
      then reverse (digits_loop 10 value room)
      else if ltb 0 room
      then b'?' ∷ []
      else []

-- `value` is an `int` as its bit pattern. `-value` wraps for the least one.
unfoldable pub itoa : ℕ → ℕ → ℕ → List ℕ
itoa value base buf_size =
    if buf_size == 0
    then []
    else let is_negative = base == 10 && leb (2 ^ 31) value in
      let text = utoa (if is_negative then (2 ^ 32 - value) % 2 ^ 32 else value) base buf_size in
      if is_negative && ltb (length text + 1) buf_size then b'-' ∷ text else text

-- `while (value >= power) { value -= power; digit++; }`: the digit, and what is left.
unfoldable pub subtract_power : ℕ → ℕ → ℕ → ℕ → ℕ × ℕ
subtract_power zero value power digit = (digit, value)
subtract_power (suc fuel) value power digit =
    let rest = subtract_power fuel (value - power) power (digit + 1) in
    if leb power value then rest else (digit, value)

-- The loop over the powers of ten: 10 ^ 19 is the largest below 2 ^ 64, and at most nine
-- subtractions are made for each of the others.
unfoldable pub powers_loop : ℕ → List ℕ → ℕ → Bool → List ℕ
powers_loop value [] room leading_zero = []
powers_loop value (power ∷ powers) zero leading_zero = []
powers_loop value (power ∷ powers) (suc room) leading_zero =
    let (digit, left) = subtract_power 10 value power 0 in
    let skip = leading_zero && digit == 0 in
    let skipped = powers_loop left powers (suc room) leading_zero in
    let written = (b'0' + digit) ∷ powers_loop left powers room false in
    if skip then skipped else written

abbrev pub powers : List ℕ
powers =
    10000000000000000000 ∷ 1000000000000000000 ∷ 100000000000000000 ∷ 10000000000000000
    ∷ 1000000000000000 ∷ 100000000000000 ∷ 10000000000000 ∷ 1000000000000 ∷ 100000000000
    ∷ 10000000000 ∷ 1000000000 ∷ 100000000 ∷ 10000000 ∷ 1000000 ∷ 100000 ∷ 10000 ∷ 1000 ∷ 100 ∷ 10
    ∷ 1 ∷ []

unfoldable pub ulltoa : ℕ → ℕ → ℕ → List ℕ
ulltoa value base buf_size =
    if buf_size == 0
    then []
    else let room = buf_size - 1 in
      if base == 16
      then (if value == 0
          then (if ltb 0 room then b'0' ∷ [] else [])
          else reverse (digits_loop 16 value room))
      else if base == 10
      then (if value == 0
          then (if ltb 0 room then b'0' ∷ [] else [])
          else powers_loop value powers room true)
      else if ltb 0 room
      then b'?' ∷ []
      else []

-- The unit: how often 1024 goes, four times at most.
unfoldable pub scale_loop : ℕ → ℕ → ℕ → ℕ
scale_loop bytes i zero = i
scale_loop bytes i (suc left) =
    let rest = scale_loop bytes (suc i) left in if ltb bytes (1024 ^ suc i) then i else rest

abbrev pub unit_char : ℕ → ℕ
unit_char scale =
    if scale == 0
    then b'B'
    else if scale == 1
    then b'K'
    else if scale == 2
    then b'M'
    else if scale == 3
    then b'G'
    else b'T'

unfoldable pub human_size : ℕ → ℕ → List ℕ
human_size bytes buf_size =
    let scale = scale_loop bytes 0 4 in
    let whole = bytes / 1024 ^ scale in
    let remainder = bytes % 1024 ^ scale in
    let frac =
      if ltb 0 scale && ltb 0 remainder then remainder * 10 % 2 ^ 64 / 1024 ^ scale else 0 in
    let tmp = ulltoa whole 10 32 in
    if leb buf_size (length tmp)
    then []
    else let number =
        if ltb 0 frac && ltb (length tmp + 3) buf_size
        then tmp ++ (b'.' ∷ (b'0' + frac) ∷ [])
        else tmp in
      if leb (length number + 2) buf_size then number ++ (unit_char scale ∷ []) else number
