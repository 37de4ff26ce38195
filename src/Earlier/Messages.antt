-- ===== src/Earlier/Messages.antt =====
-- The messages of the earlier `vga_printf` against those of the last step's.
use os_learning.Base.{
  ℕ, ◌%◌, ◌≡◌, refl, sym, ap, ◌∙◌, arith, Bool, true, false, not, ◌||◌, ◌&&◌, inl, inr, List, [],
  ◌∷◌, ◌++◌, Option, none, some, ◌==◌, if◌then◌else◌, Bool-cases,
}
use os_learning.Vga.Digits.{itoa, utoa}
use os_learning.Vga.Printf.{
  Arg, word, long, text, Taken, take_word, take_text, is_x, is_d, convert, step, finish, format,
  Mode, plain, percent,
}
use os_learning.Vga.Printed.{format-step, step-convert}
use os_learning.Vga.{Vga, sync_cursor, put_glyph, putc, write}
use os_learning.Vga.Printf.{printf}
use os_learning.Earlier.{old_putc, old_write, old_printf, old_itoa, old_convert, old_format}
use os_learning.Earlier.Texts.{old_itoa-itoa}

-- The conversions that the last step has added.
abbrev pub is_new : ℕ → Bool
is_new c = c == b'u' || c == b'h' || c == b'p' || c == b'l'

-- No conversion in the format is a new one; the flag is true behind a `%`.
abbrev pub IsShared : Bool → List ℕ → Type 0
IsShared behind [] = Unit {0}
IsShared false (c ∷ fmt) = IsShared (c == b'%') fmt
IsShared true (c ∷ fmt) = (is_new c ≡ false) × IsShared false fmt

take_word-same :
    (f g : ℕ → List ℕ) (args : List Arg)
    → ((v : ℕ) → f v ≡ g v)
    → take_word f args ≡ take_word g args
take_word-same f g [] same = refl
take_word-same f g (word v ∷ args) same = ap (λ t. some (t, args)) (same v)
take_word-same f g (long v ∷ args) same = refl
take_word-same f g (text v ∷ args) same = refl

hex_same : (buf : ℕ → ℕ) (v : ℕ) → old_itoa v buf 16 64 ≡ utoa v 16 64
unfolding itoa
hex_same buf v = old_itoa-itoa v 16 64 buf (inr refl)

not_new :
    (c : ℕ)
    → is_new c ≡ false
    → ((c == b'u') ≡ false) × ((c == b'h') ≡ false) × ((c == b'p') ≡ false) × ((c == b'l') ≡ false)
not_new c old = (ground arith, ground arith, ground arith, ground arith)

-- The conversions that both steps know, by what they make of a decimal and a hexadecimal number.
abbrev choice : ℕ → List Arg → Taken → Taken → Taken
choice c args dec hex =
    if c == b'c'
    then take_word (λ v. (v % 256) ∷ []) args
    else if c == b's'
    then take_text args
    else if is_d c
    then dec
    else if is_x c
    then hex
    else if c == b'%'
    then some (b'%' ∷ [], args)
    else some (b'%' ∷ c ∷ [], args)

old_convert-convert :
    (buf : ℕ → ℕ) (c : ℕ) (args : List Arg)
    → is_new c ≡ false
    → old_convert buf c args ≡ convert c args
unfolding old_convert convert
old_convert-convert buf c args old =
    let apart = not_new c old in
    rw (apart.0, apart.1, apart.2)
      (ap (λ dec. choice c args dec (take_word (λ v. old_itoa v buf 16 64) args))
          (take_word-same (λ v. old_itoa v buf 10 64) (λ v. itoa v 10 64) args
            (λ v. old_itoa-itoa v 10 64 buf (inl refl)))
        ∙ ap (choice c args (take_word (λ v. itoa v 10 64) args))
            (take_word-same (λ v. old_itoa v buf 16 64) (λ v. utoa v 16 64) args (hex_same buf)))

-- The mode of the last step's loop.
abbrev pub mode_of : Bool → Mode
mode_of behind = if behind then percent else plain

mapped :
    (f : List ℕ → List ℕ) (r : Option (List ℕ)) (out : List ℕ)
    → ◌≡◌ {A = Option (List ℕ)} (elim r [ none ↦ none | some x ↦ some (f x) ]) (some out)
    → (x : List ℕ) × (r ≡ some x) × (f x ≡ out)
mapped f none out e = cc
mapped f (some x) out e = (x, refl, cc)

-- Behind a `%`, where the rest of the format agrees.
conversion_step :
    (buf : ℕ → ℕ) (c : ℕ) (fmt : List ℕ) (args : List Arg) (out : List ℕ) (t : Taken)
    → convert c args ≡ t
    → (c == b'l') ≡ false
    → ((left : List Arg) (rest : List ℕ)
        → old_format buf false fmt left ≡ some rest
        → format plain fmt left ≡ some rest)
    → ◌≡◌ {A = Option (List ℕ)}
        (elim t [
          | none ↦ none
          | some (made, left) ↦ elim (old_format buf false fmt left) [
            | none ↦ none
            | some rest ↦ some (made ++ rest)
          ]
        ])
        (some out)
    → format percent (c ∷ fmt) args ≡ some out
conversion_step buf c fmt args out none found short next e = cc
conversion_step buf c fmt args out (some (made, left)) found short next e =
    let (rest, known, whole) = mapped (λ r. made ++ r) (old_format buf false fmt left) out e in
    format-step percent plain c fmt args left made rest (step-convert c args left made short found)
      (next left rest known)
    ∙ ap some whole

pub old_format-format :
    (buf : ℕ → ℕ) (behind : Bool) (fmt : List ℕ) (args : List Arg) (out : List ℕ)
    → IsShared behind fmt
    → old_format buf behind fmt args ≡ some out
    → format (mode_of behind) fmt args ≡ some out
unfolding old_format format step finish
old_format-format buf false [] args out shared e = e
old_format-format buf true [] args out shared e = cc
old_format-format buf false (c ∷ fmt) args out shared e = elim (Bool-cases (c == b'%')) [
  | inl sign ↦
      let e' : old_format buf true fmt args ≡ some out = rw sign at e in
      let shared' : IsShared true fmt = rw sign at shared in
      let ih = old_format-format buf true fmt args out shared' e' in
      rw (format, step, sign, ih) refl
  | inr literal ↦
      let shared' : IsShared false fmt = rw literal at shared in
      let (rest, known, whole) =
        mapped (λ r. c ∷ r) (old_format buf false fmt args) out (rw literal at e) in
      let ih = old_format-format buf false fmt args rest shared' known in
      rw (format, step, literal, ih) (ap some whole)
]
old_format-format buf true (c ∷ fmt) args out shared e =
    let short = (not_new c shared.0).3 in
    conversion_step buf c fmt args out (old_convert buf c args)
      (sym (old_convert-convert buf c args shared.0)) short
      (λ left rest known. old_format-format buf false fmt left rest shared.1 known) e

-- A tab, a carriage return or a backspace.
abbrev is_moving : ℕ → Bool
is_moving c = c == 13 || c == 9 || c == 8

abbrev pub is_shown : List ℕ → Bool
is_shown [] = true
is_shown (c ∷ cs) = not (is_moving c) && is_shown cs

not_moving :
    (c : ℕ) → is_moving c ≡ false → ((c == 13) ≡ false) × ((c == 9) ≡ false) × ((c == 8) ≡ false)
not_moving c h = (ground arith, ground arith, ground arith)

old_putc-putc : (s : Vga) (c : ℕ) → is_moving c ≡ false → old_putc s c ≡ putc s c
unfolding old_putc putc put_glyph sync_cursor
old_putc-putc s c h =
    let (no_return, no_tab, no_back) = not_moving c h in rw (no_return, no_tab, no_back) refl

both_true : (a b : Bool) → (a && b) ≡ true → (a ≡ true) × (b ≡ true)
both_true a b h = ground arith

old_write-write : (s : Vga) (cs : List ℕ) → is_shown cs ≡ true → old_write s cs ≡ write s cs
unfolding old_write write
old_write-write s [] shown = refl
old_write-write s (c ∷ cs) shown =
    let (here, rest) = both_true (not (is_moving c)) (is_shown cs) shown in
    let still : is_moving c ≡ false = ground arith in
    old_write-write (old_putc s c) cs rest ∙ ap (λ t. write t cs) (old_putc-putc s c still)

-- For a format none of whose conversions is u, h, p or l, where the earlier step's `vga_printf`
-- makes a text of it and of its arguments that has no tab, carriage return or backspace: the
-- earlier step's `vga_printf` and the last step's both leave the screen as the last step's
-- `vga_write` of that text does.
pub old_printf-printf :
    (buf : ℕ → ℕ) (s : Vga) (fmt : List ℕ) (args : List Arg) (out : List ℕ)
    → IsShared false fmt
    → old_format buf false fmt args ≡ some out
    → is_shown out ≡ true
    → (old_printf buf s fmt args ≡ some (write s out)) × (printf s fmt args ≡ some (write s out))
unfolding old_printf printf
old_printf-printf buf s fmt args out shared known shown = (
  rw (old_printf, known) (ap some (old_write-write s out shown)),
  rw (printf, old_format-format buf false fmt args out shared known) refl,
)
