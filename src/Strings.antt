-- ===== src/Strings.antt =====
-- lib/string.c over byte memory: an address stands for a pointer, and what C leaves undefined, a
-- pointer past the end of the address space, is not reached by the theorems.
pub mod Moves
pub mod Texts
use os_learning.Base.{
  ℕ, zero, suc, ◌+◌, ◌-◌, ◌%◌, ◌^◌, Bool, not, ◌&&◌, ltb, ◌==◌, if◌then◌else◌, update,
}
use os_learning.Memory.{Mem, sub32, Run, ok, out_of_fuel, ◌>>=◌}

-- The loop of `memset`; the value is cast to `unsigned char`.
unfoldable pub fill : Mem → ℕ → ℕ → ℕ → Mem
fill m ptr val zero = m
fill m ptr val (suc len) = fill (update m ptr (val % 256)) (ptr + 1) val len

-- The memory, and the pointer that is returned.
unfoldable pub memset : Mem → ℕ → ℕ → ℕ → Mem × ℕ
memset m dest val len = (fill m dest val len, dest)

-- `*d++ = *s++`
unfoldable pub copy_up : Mem → ℕ → ℕ → ℕ → Mem
copy_up m d s zero = m
copy_up m d s (suc len) = copy_up (update m d (m s)) (d + 1) (s + 1) len

-- `*(--d) = *(--s)`
unfoldable pub copy_down : Mem → ℕ → ℕ → ℕ → Mem
copy_down m d s zero = m
copy_down m d s (suc len) = copy_down (update m (d - 1) (m (s - 1))) (d - 1) (s - 1) len

unfoldable pub memcpy : Mem → ℕ → ℕ → ℕ → Mem × ℕ
memcpy m dest src len = (copy_up m dest src len, dest)

unfoldable pub memmove : Mem → ℕ → ℕ → ℕ → Mem × ℕ
memmove m dest src len =
    if dest == src
    then (m, dest)
    else if ltb dest src
    then (copy_up m dest src len, dest)
    else (copy_down m (dest + len) (src + len) len, dest)

unfoldable pub strlen_loop : ℕ → Mem → ℕ → ℕ → Run ℕ
strlen_loop zero m str len = out_of_fuel
strlen_loop (suc fuel) m str len =
    let rest = strlen_loop fuel m (str + 1) ((len + 1) % 2 ^ 32) in
    if m str == 0 then ok len else rest

unfoldable pub strlen : ℕ → Mem → ℕ → Run ℕ
strlen fuel m str = strlen_loop fuel m str 0

-- The bit pattern of the `int` that is returned.
unfoldable pub strcmp : ℕ → Mem → ℕ → ℕ → Run ℕ
strcmp zero m s1 s2 = out_of_fuel
strcmp (suc fuel) m s1 s2 =
    let rest = strcmp fuel m (s1 + 1) (s2 + 1) in
    if not (m s1 == 0) && (m s1 == m s2) then rest else ok (sub32 (m s1) (m s2))

-- The loop of `strcpy`: the byte is copied, and it ends behind a zero.
unfoldable pub strcpy_loop : ℕ → Mem → ℕ → ℕ → Run Mem
strcpy_loop zero m dest src = out_of_fuel
strcpy_loop (suc fuel) m dest src =
    let m' : Mem = update m dest (m src) in
    let rest = strcpy_loop fuel m' (dest + 1) (src + 1) in if m src == 0 then ok m' else rest

unfoldable pub strcpy : ℕ → Mem → ℕ → ℕ → Run (Mem × ℕ)
strcpy fuel m dest src = strcpy_loop fuel m dest src >>= λ m'. ok (m', dest)

-- The first loop of `strncpy` from `i`, with the rounds that are left: the memory, and where it ends.
unfoldable pub copy_text : Mem → ℕ → ℕ → ℕ → ℕ → Mem × ℕ
copy_text m dest src i zero = (m, i)
copy_text m dest src i (suc left) =
    let rest = copy_text (update m (dest + i) (m (src + i))) dest src (suc i) left in
    if m (src + i) == 0 then (m, i) else rest

unfoldable pub strncpy : Mem → ℕ → ℕ → ℕ → Mem × ℕ
strncpy m dest src n =
    let (copied, i) = copy_text m dest src 0 n in (fill copied (dest + i) 0 (n - i), dest)
