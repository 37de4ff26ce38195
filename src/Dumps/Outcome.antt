-- ===== src/Dumps/Outcome.antt =====
-- Where the dumps are defined, and where not.
use os_learning.Base.{
  ℕ, zero, suc, ◌+◌, ◌≤◌, ◌≡◌, refl, sym, ap, ◌∙◌, subst, List, [], ◌∷◌, Option, none, some,
}
use os_learning.Base.Codes.{codes}
use os_learning.BootInfo.{BootInfo}
use os_learning.Cpu.Gdt.{GdtEntry, Tables}
use os_learning.Vga.{Vga, write}
use os_learning.Vga.Printf.{Arg, word, plain, step, format, convert, finish, printf}
use os_learning.Vga.Screen.{IsOnScreen, write-IsOnScreen}
use os_learning.Dumps.{
  then_printf, boot_info_dump, print_gdt_entry, dump_gdt_entries, gdt_entry_count, Selectors,
  gdt_dump,
}

size_message :
    (a b : ℕ) → format plain (codes " kernel_end=%x size=%h\n") (word a ∷ word b ∷ []) ≡ none
unfolding format step convert finish
size_message a b = refl

size_message-last :
    (s : Option Vga) (a b : ℕ)
    → then_printf s (codes " kernel_end=%x size=%h\n") (word a ∷ word b ∷ []) ≡ none
unfolding printf
size_message-last none a b = refl
size_message-last (some s) a b =
    ap (λ f. elim f [ none ↦ none | some out ↦ some (write s out) ]) (size_message a b)

-- The last message of `boot_info_dump` asks for an argument of 64 bits, and the code passes one of
-- 32.
pub boot_info_dump-undefined : (b : BootInfo) (s : Vga) → boot_info_dump b s ≡ none
unfolding boot_info_dump
boot_info_dump-undefined b s =
    size_message-last _ b.kernel_sections.kernel_end b.kernel_sections.kernel_size

-- A dump from the screen `s`: it is defined, the cursor is on the screen, and no cell beyond the
-- 2000 of the screen has changed.
pub record Dumped (s : Vga) (res : Option Vga) : Type 0 where
  pub screen : Vga
  pub result : res ≡ some screen
  pub on_screen : IsOnScreen screen
  pub outside : (i : ℕ) → 2000 ≤ i → screen.buf i ≡ s.buf i

abbrev IsSome : Option (List ℕ) → Type 0
IsSome none = ⊥
IsSome (some out) = Unit {0}

-- One more message, whose conversions find their arguments.
Dumped-then :
    (s : Vga) (res : Option Vga) (fmt : List ℕ) (args : List Arg)
    → Dumped s res
    → IsSome (format plain fmt args)
    → Dumped s (then_printf res fmt args)
unfolding printf
Dumped-then s res fmt args d all =
    subst (λ q. Dumped s (then_printf q fmt args)) (sym d.result)
      (printed (format plain fmt args) refl all)
  where
    printed :
        (f : Option (List ℕ))
        → format plain fmt args ≡ f
        → IsSome f
        → Dumped s (printf d.screen fmt args)
    printed none e none_some = absurd none_some
    printed (some out) e all' =
        let (on, out_same) = write-IsOnScreen d.screen out d.on_screen in
        record {
          screen = write d.screen out;
          result = ap (λ f. elim f [ none ↦ none | some out' ↦ some (write d.screen out') ]) e;
          on_screen = on;
          outside = λ i h. out_same i h ∙ d.outside i h;
        }

print_gdt_entry-Dumped :
    (s : Vga) (res : Option Vga) (i : ℕ) (e : GdtEntry)
    → Dumped s res
    → Dumped s (print_gdt_entry i e res)
unfolding print_gdt_entry format step convert finish
print_gdt_entry-Dumped s res i e d = Dumped-then s _ _ _ (Dumped-then s res _ _ d tt) tt

dump_gdt_entries-Dumped :
    (s : Vga) (gdt : ℕ → GdtEntry) (left i : ℕ) (res : Option Vga)
    → Dumped s res
    → Dumped s (dump_gdt_entries gdt i left res)
unfolding dump_gdt_entries
dump_gdt_entries-Dumped s gdt zero i res d = d
dump_gdt_entries-Dumped s gdt (suc left) i res d =
    dump_gdt_entries-Dumped s gdt left (i + 1) (print_gdt_entry i (gdt i) res)
      (print_gdt_entry-Dumped s res i (gdt i) d)

-- With the cursor on the screen, every message of `gdt_dump` finds the arguments that its
-- conversions ask for, whatever the tables and registers hold; the cursor is on the screen
-- afterwards, and no cell beyond the 2000 of the screen is written.
pub gdt_dump-Dumped :
    (t : Tables) (r : Selectors) (s : Vga) → IsOnScreen s → Dumped s (gdt_dump t r s)
unfolding gdt_dump format step convert finish
gdt_dump-Dumped t r s on =
    let d0 : Dumped s (some s) = record {
      screen = s;
      result = refl;
      on_screen = on;
      outside = λ i h. refl;
    } in
    let d2 =
      Dumped-then s _ _ (word r.base ∷ word r.limit ∷ [])
        (Dumped-then s (some s) (codes "\n--- GDT Dump ---\n") [] d0 tt) tt in
    let d3 = dump_gdt_entries-Dumped s t.gdt gdt_entry_count 0 _ d2 in
    Dumped-then s _ _ _
      (Dumped-then s _ _ _ (Dumped-then s _ _ _ (Dumped-then s _ _ _ d3 tt) tt) tt) tt
