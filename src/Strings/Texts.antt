-- ===== src/Strings/Texts.antt =====
-- The functions on texts that end in a zero byte, against lists of bytes.
use os_learning.Base.{
  ℕ, zero, suc, ◌+◌, ◌-◌, ◌%◌, ◌^◌, ◌≤◌, ◌<◌, ◌≡◌, refl, sym, ap, subst, ◌∙◌, ◌⊎◌, inl, inr, Bool,
  true, false, ◌&&◌, arith, leb, ltb, ◌==◌, ==_iff, if◌then◌else◌, Bool-cases, update, List, [],
  ◌∷◌, length, min,
}
use os_learning.Memory.{Mem, sub32, ok}
use os_learning.Strings.Moves.{fill-at, copy_up-at}
use os_learning.Strings.{strlen_loop, strcmp, strcpy_loop, copy_up, copy_text, strncpy}

-- The bytes of the list stand at the address, none of them zero, and a zero behind them.
abbrev pub IsText : Mem → ℕ → List ℕ → Type 0
IsText m a [] = m a ≡ 0
IsText m a (c ∷ l) = (m a ≡ c) × (0 < c) × (c < 256) × IsText m (a + 1) l

-- The order of texts: the first byte that differs decides, and an end comes first.
abbrev pub less : List ℕ → List ℕ → Bool
less [] [] = false
less [] (y ∷ ys) = true
less (x ∷ xs) [] = false
less (x ∷ xs) (y ∷ ys) = if x == y then less xs ys else ltb x y

-- The bit pattern of a number that is zero, positive or negative, as the texts compare.
abbrev pub Compared : List ℕ → List ℕ → ℕ → Type 0
Compared xs ys r =
    ((r ≡ 0) × (xs ≡ ys))
    ⊎ (((0 < r) × (r < 256) × (less ys xs ≡ true))
        ⊎ ((2 ^ 32 - 256 < r) × (r < 2 ^ 32) × (less xs ys ≡ true)))

pub strlen_loop-length :
    (fuel : ℕ) (m : Mem) (a len : ℕ) (l : List ℕ)
    → IsText m a l
    → length l < fuel
    → len + length l < 2 ^ 32
    → strlen_loop fuel m a len ≡ ok (len + length l)
unfolding strlen_loop
strlen_loop-length zero m a len l t enough small = absurd (omega arith)
strlen_loop-length (suc fuel) m a len [] t enough small =
    let e : len + 0 ≡ len = omega arith in rw (t, e)
strlen_loop-length (suc fuel) m a len (c ∷ l) t enough small =
    let more : (m a == 0) ≡ false = ground (arith, t.0, t.1) in
    let next : (len + 1) % 2 ^ 32 ≡ len + 1 = omega arith in
    let e : len + suc (length l) ≡ len + 1 + length l = omega arith in
    rw (more, next, e)
      (strlen_loop-length fuel m (a + 1) (len + 1) l t.3 (omega arith) (omega arith))

Compared-cons : (c : ℕ) (xs ys : List ℕ) (r : ℕ) → Compared xs ys r → Compared (c ∷ xs) (c ∷ ys) r
Compared-cons c xs ys r h = elim h [
  | inl (zero_now, same) ↦ inl (zero_now, ap (λ l. c ∷ l) same)
  | inr (inl (lo, hi, order)) ↦ inr (inl (lo, hi, ground (arith, order)))
  | inr (inr (lo, hi, order)) ↦ inr (inr (lo, hi, ground (arith, order)))
]

Compared-head :
    (x y : ℕ) (xs ys : List ℕ)
    → (x == y) ≡ false
    → x < 256
    → y < 256
    → Compared (x ∷ xs) (y ∷ ys) (sub32 x y)
Compared-head x y xs ys apart lo hi = elim (Bool-cases (ltb x y)) [
  | inl below ↦ inr (inr (ground arith, ground arith, ground arith))
  | inr above ↦ inr (inl (ground arith, ground arith, ground arith))
]

-- For two texts of bytes from 1 to 255 that a zero byte ends, with fuel for the bytes of the first
-- and its end, `strcmp` returns: 0 exactly for equal texts, otherwise a positive number up to 255
-- where the second text comes first in the order that the first differing byte decides, and the bit
-- pattern of a negative one from -255 on where the first text does.
pub strcmp-Compared :
    (fuel : ℕ) (m : Mem) (s1 s2 : ℕ) (xs ys : List ℕ)
    → IsText m s1 xs
    → IsText m s2 ys
    → length xs < fuel
    → (r : ℕ) × (strcmp fuel m s1 s2 ≡ ok r) × Compared xs ys r
unfolding strcmp
strcmp-Compared zero m s1 s2 xs ys t u enough = absurd (omega arith)
strcmp-Compared (suc fuel) m s1 s2 [] [] t u enough = (0, rw (t, u), inl (refl, refl))
strcmp-Compared (suc fuel) m s1 s2 [] (y ∷ ys) t u enough =
    (sub32 0 y, rw (t, u.0), inr (inr (omega (arith, u.1, u.2), omega (arith, u.1, u.2), refl)))
strcmp-Compared (suc fuel) m s1 s2 (x ∷ xs) [] t u enough = (
  x,
  (let more : (x == 0) ≡ false = ground (arith, t.1) in
      let e : sub32 x 0 ≡ x = omega (arith, t.2) in rw (t.0, u, more, e)),
  inr (inl (t.1, t.2, refl)),
)
strcmp-Compared (suc fuel) m s1 s2 (x ∷ xs) (y ∷ ys) t u enough = elim (Bool-cases (x == y)) [
  | inl same ↦
      let e : x ≡ y = (==_iff x y).0 same in
      let (r, res, order) = strcmp-Compared fuel m (s1 + 1) (s2 + 1) xs ys t.3 u.3 (omega arith) in
      let more : (x == 0) ≡ false = ground (arith, t.1) in
      (
        r,
        rw (t.0, u.0, same, more, res),
        subst (λ z. Compared (x ∷ xs) (z ∷ ys) r) e (Compared-cons x xs ys r order),
      )
  | inr apart ↦
      let more : (x == 0) ≡ false = ground (arith, t.1) in
      (sub32 x y, rw (t.0, u.0, apart, more), Compared-head x y xs ys apart t.2 u.2)
]

-- A text is not changed by a write elsewhere.
IsText-update :
    (m : Mem) (a d v : ℕ) (l : List ℕ)
    → (d < a) ⊎ (a + length l < d)
    → IsText m a l
    → IsText (update m d v) a l
IsText-update m a d v [] apart t = ground (arith, t, apart)
IsText-update m a d v (c ∷ l) apart t =
    (ground (arith, t.0, apart), t.1, t.2, IsText-update m (a + 1) d v l (omega arith) t.3)

-- Where the two do not overlap, `strcpy` copies the text with its zero, like `memcpy` of its length and one.
pub strcpy_loop-copy_up :
    (fuel : ℕ) (m : Mem) (dest src : ℕ) (l : List ℕ)
    → IsText m src l
    → length l < fuel
    → (dest + length l < src) ⊎ (src + length l < dest)
    → strcpy_loop fuel m dest src ≡ ok (copy_up m dest src (suc (length l)))
unfolding strcpy_loop copy_up
strcpy_loop-copy_up zero m dest src l t enough apart = absurd (omega arith)
strcpy_loop-copy_up (suc fuel) m dest src [] t enough apart =
    let none : (m src == 0) ≡ true = ground (arith, t) in rw none
strcpy_loop-copy_up (suc fuel) m dest src (c ∷ l) t enough apart =
    let more : (m src == 0) ≡ false = ground (arith, t.0, t.1) in
    let rest =
      strcpy_loop-copy_up fuel (update m dest (m src)) (dest + 1) (src + 1) l
        (IsText-update m (src + 1) dest (m src) l (omega arith) t.3) (omega arith) (omega arith) in
    rw more rest

-- The first loop of `strncpy` copies up to the end of the text or of the room.
copy_text-copy_up :
    (m : Mem) (dest src i left : ℕ) (l : List ℕ)
    → IsText m (src + i) l
    → (dest + i + left ≤ src + i) ⊎ (src + i + length l < dest + i)
    → copy_text m dest src i left
      ≡ (copy_up m (dest + i) (src + i) (min left (length l)), i + min left (length l))
unfolding copy_text copy_up
copy_text-copy_up m dest src i zero l t apart =
    let k : min 0 (length l) ≡ 0 = omega arith in let e : i + 0 ≡ i = omega arith in rw (k, e)
copy_text-copy_up m dest src i (suc left) [] t apart =
    let none : (m (src + i) == 0) ≡ true = ground (arith, t) in
    let k : min (suc left) 0 ≡ 0 = omega arith in let e : i + 0 ≡ i = omega arith in rw (none, k, e)
copy_text-copy_up m dest src i (suc left) (c ∷ l) t apart =
    let more : (m (src + i) == 0) ≡ false = ground (arith, t.0, t.1) in
    let s_next : src + suc i ≡ src + i + 1 = omega arith in
    let d_next : dest + suc i ≡ dest + i + 1 = omega arith in
    let k : min (suc left) (suc (length l)) ≡ suc (min left (length l)) = omega arith in
    let rest =
      copy_text-copy_up (update m (dest + i) (m (src + i))) dest src (suc i) left l
        (subst (λ a. IsText (update m (dest + i) (m (src + i))) a l) (sym s_next)
          (IsText-update m (src + i + 1) (dest + i) (m (src + i)) l (omega arith) t.3))
        (omega arith) in
    let e : i + suc (min left (length l)) ≡ suc i + min left (length l) = omega arith in
    rw (more, k, e) (rest ∙ rw (s_next, d_next))

-- What `strncpy` should leave at `x`: the text, as far as it goes and fits, and zeros behind it.
abbrev pub padded : Mem → ℕ → ℕ → ℕ → ℕ → ℕ → ℕ
padded m dest src len n x =
    if leb dest x && ltb x (dest + n)
    then (if ltb (x - dest) len then m (src + (x - dest)) else 0)
    else m x

-- For a text that a zero byte ends and a room for the copy that does not overlap it, `strncpy`
-- copies the text as far as it goes and fits, fills the rest of the room with zeros, and changes no
-- other byte.
pub strncpy-padded :
    (m : Mem) (dest src n x : ℕ) (l : List ℕ)
    → IsText m src l
    → (dest + n ≤ src) ⊎ (src + length l < dest)
    → (strncpy m dest src n).0 x ≡ padded m dest src (length l) n x
unfolding strncpy
strncpy-padded m dest src n x l t apart =
    let s0 : src + 0 ≡ src = omega arith in
    let copied =
      copy_text-copy_up m dest src 0 n l (subst (λ a. IsText m a l) (sym s0) t) (omega arith) in
    let d0 : dest + 0 ≡ dest = omega arith in
    let k : ℕ = min n (length l) in
    let k0 : 0 + k ≡ k = omega arith in
    let front = copy_up-at m dest src k x (omega arith) in
    let back = fill-at (copy_up m dest src k) (dest + k) 0 (n - k) x in
    rw (copied, s0, d0, k0) (back ∙ rw front (ground arith))
