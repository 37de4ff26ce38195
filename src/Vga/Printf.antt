-- ===== src/Vga/Printf.antt =====
-- `vga_printf`: the characters that a format string and its arguments put on the screen. An argument
-- is the value that `va_arg` takes; `none` is a format that asks for an argument that is not there
-- or is of the wrong kind, which C leaves undefined.
use os_learning.Base.{
  ℕ, zero, suc, ◌-◌, ◌%◌, ◌^◌, Bool, ◌||◌, List, [], ◌∷◌, ◌++◌, Option, none, some, leb, ◌==◌,
  if◌then◌else◌, length,
}
use os_learning.Vga.{Vga, write}
use os_learning.Vga.Digits.{utoa, itoa, ulltoa, human_size}

-- A 32-bit argument, a 64-bit one, and a string, `none` for NULL.
pub data Arg : Type 0 where
  word : ℕ → Arg
  long : ℕ → Arg
  text : Option (List ℕ) → Arg

abbrev pub Taken : Type 0
Taken = Option (List ℕ × List Arg)

abbrev pub buf_size : ℕ
buf_size = 64

abbrev pub null_text : List ℕ
null_text = b'(' ∷ b'n' ∷ b'u' ∷ b'l' ∷ b'l' ∷ b')' ∷ []

abbrev pub take_word : (ℕ → List ℕ) → List Arg → Taken
take_word show (word v ∷ args) = some (show v, args)
take_word show _ = none

abbrev take_long : (ℕ → List ℕ) → List Arg → Taken
take_long show (long v ∷ args) = some (show v, args)
take_long show _ = none

abbrev pub take_text : List Arg → Taken
take_text (text none ∷ args) = some (null_text, args)
take_text (text (some s) ∷ args) = some (s, args)
take_text _ = none

-- `n` zeros
abbrev zeros : ℕ → List ℕ
zeros zero = []
zeros (suc n) = b'0' ∷ zeros n

-- `%p`
unfoldable pub show_pointer : ℕ → List ℕ
show_pointer v =
    let digits = utoa v 16 buf_size in b'0' ∷ b'x' ∷ (zeros (8 - length digits) ++ digits)

-- `%lld`: the sign, and the magnitude of the bit pattern.
unfoldable pub show_long : ℕ → List ℕ
show_long v =
    if leb (2 ^ 63) v
    then b'-' ∷ ulltoa ((2 ^ 64 - v) % 2 ^ 64) 10 buf_size
    else ulltoa v 10 buf_size

abbrev pub is_x : ℕ → Bool
is_x c = c == b'x' || c == b'X'

abbrev pub is_d : ℕ → Bool
is_d c = c == b'd' || c == b'i'

-- The conversion that `c` names, behind a `%`.
unfoldable pub convert : ℕ → List Arg → Taken
convert c args =
    if c == b'c'
    then take_word (λ v. (v % 256) ∷ []) args
    else if c == b's'
    then take_text args
    else if is_d c
    then take_word (λ v. itoa v 10 buf_size) args
    else if c == b'u'
    then take_word (λ v. utoa v 10 buf_size) args
    else if is_x c
    then take_word (λ v. utoa v 16 buf_size) args
    else if c == b'h'
    then take_long (λ v. human_size v buf_size) args
    else if c == b'p'
    then take_word show_pointer args
    else if c == b'%'
    then some (b'%' ∷ [], args)
    else some (b'%' ∷ c ∷ [], args)

-- Behind `%l`, and behind `%ll`.
unfoldable pub convert_l : ℕ → List Arg → Taken
convert_l c args =
    if c == b'u'
    then take_word (λ v. utoa v 10 buf_size) args
    else if is_x c
    then take_word (λ v. utoa v 16 buf_size) args
    else if is_d c
    then take_word (λ v. itoa v 10 buf_size) args
    else some (b'%' ∷ b'l' ∷ c ∷ [], args)

unfoldable pub convert_ll : ℕ → List Arg → Taken
convert_ll c args =
    if c == b'u'
    then take_long (λ v. ulltoa v 10 buf_size) args
    else if is_x c
    then take_long (λ v. ulltoa v 16 buf_size) args
    else if is_d c
    then take_long show_long args
    else some (b'%' ∷ b'l' ∷ b'l' ∷ c ∷ [], args)

-- Where the loop stands in the format: plain text, or behind `%`, `%l` or `%ll`.
pub data Mode : Type 0 where
  plain percent percent_l percent_ll : Mode

-- What a character gives in a mode: characters, the arguments left, and the next mode.
unfoldable pub step : Mode → ℕ → List Arg → Option (List ℕ × List Arg × Mode)
step plain c args = if c == b'%' then some ([], args, percent) else some (c ∷ [], args, plain)
step percent c args =
    if c == b'l'
    then some ([], args, percent_l)
    else elim (convert c args) [ none ↦ none | some (out, rest) ↦ some (out, rest, plain) ]
step percent_l c args =
    if c == b'l'
    then some ([], args, percent_ll)
    else elim (convert_l c args) [ none ↦ none | some (out, rest) ↦ some (out, rest, plain) ]
step percent_ll c args = elim (convert_ll c args) [
  | none ↦ none
  | some (out, rest) ↦ some (out, rest, plain)
]

-- The format ends in a mode.
unfoldable pub finish : Mode → List ℕ
finish plain = []
finish percent = []
finish percent_l = b'%' ∷ b'l' ∷ []
finish percent_ll = b'%' ∷ b'l' ∷ b'l' ∷ []

unfoldable pub format : Mode → List ℕ → List Arg → Option (List ℕ)
format mode [] args = some (finish mode)
format mode (c ∷ fmt) args = elim (step mode c args) [
  | none ↦ none
  | some (out, rest, next) ↦ elim (format next fmt rest) [
    | none ↦ none
    | some rest_out ↦ some (out ++ rest_out)
  ]
]

unfoldable pub printf : Vga → List ℕ → List Arg → Option Vga
printf s fmt args = elim (format plain fmt args) [ none ↦ none | some out ↦ some (write s out) ]
