-- ===== src/Vga/Printed.antt =====
-- `vga_printf`: literal text prints itself, and a conversion prints its argument between the texts
-- around it.
use os_learning.Base.{ℕ, ◌≡◌, refl, false, List, [], ◌∷◌, ◌++◌, some, ◌==◌}
use os_learning.Vga.{Vga, write}
use os_learning.Vga.Printf.{Arg, Mode, plain, percent, convert, step, format, printf}

-- No character of the text is a percent sign.
abbrev pub IsLiteral : List ℕ → Type 0
IsLiteral [] = Unit {0}
IsLiteral (c ∷ cs) = ((c == b'%') ≡ false) × IsLiteral cs

-- One character of the format.
pub format-step :
    (mode next : Mode) (c : ℕ) (fmt : List ℕ) (args rest : List Arg) (shown out : List ℕ)
    → step mode c args ≡ some (shown, rest, next)
    → format next fmt rest ≡ some out
    → format mode (c ∷ fmt) args ≡ some (shown ++ out)
unfolding format
format-step mode next c fmt args rest shown out e f = rw (e, format, f)

format-literal :
    (text fmt : List ℕ) (args : List Arg) (out : List ℕ)
    → IsLiteral text
    → format plain fmt args ≡ some out
    → format plain (text ++ fmt) args ≡ some (text ++ out)
unfolding step
format-literal [] fmt args out h e = e
format-literal (c ∷ cs) fmt args out h e =
    format-step plain plain c (cs ++ fmt) args args (c ∷ []) (cs ++ out) (literal h.0)
      (format-literal cs fmt args out h.1 e)
  where
    literal : (c == b'%') ≡ false → step plain c args ≡ some (c ∷ [], args, plain)
    literal h = rw h

pub step-convert :
    (c : ℕ) (args rest : List Arg) (shown : List ℕ)
    → (c == b'l') ≡ false
    → convert c args ≡ some (shown, rest)
    → step percent c args ≡ some (shown, rest, plain)
unfolding step
step-convert c args rest shown short e = rw (e, step, short)

-- `vga_printf` of a text without percent signs, a percent sign, a character other than `l`, and a
-- rest, writes the text, then what the character's conversion makes of the arguments, and then what
-- the rest makes of the arguments left, provided the conversion finds its argument and the rest its
-- own.
pub printf-convert :
    (s : Vga) (text fmt : List ℕ) (c : ℕ) (args rest : List Arg) (shown out : List ℕ)
    → IsLiteral text
    → (c == b'l') ≡ false
    → convert c args ≡ some (shown, rest)
    → format plain fmt rest ≡ some out
    → printf s (text ++ (b'%' ∷ c ∷ fmt)) args ≡ some (write s (text ++ (shown ++ out)))
unfolding printf step
printf-convert s text fmt c args rest shown out literal short converted e =
    let conversion : format percent (c ∷ fmt) args ≡ some (shown ++ out) =
      format-step percent plain c fmt args rest shown out
        (step-convert c args rest shown short converted) e in
    let opened : format plain (b'%' ∷ c ∷ fmt) args ≡ some (shown ++ out) =
      format-step plain percent b'%' (c ∷ fmt) args args [] (shown ++ out) refl conversion in
    rw (format-literal text (b'%' ∷ c ∷ fmt) args (shown ++ out) literal opened, printf)
