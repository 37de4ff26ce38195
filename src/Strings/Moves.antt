-- ===== src/Strings/Moves.antt =====
-- The functions that move bytes, address by address.
use os_learning.Base.{
  ℕ, zero, suc, ◌+◌, ◌-◌, ◌%◌, ◌≤◌, ◌≡◌, refl, ◌∙◌, ◌⊎◌, inl, inr, ◌&&◌, arith, leb, ltb, ◌==◌,
  ==_iff, ap, if◌then◌else◌, Bool-cases, update,
}
use os_learning.Memory.{Mem}
use os_learning.Strings.{fill, copy_up, copy_down, memmove}

-- What a copy of `len` bytes should leave at `x`.
abbrev pub moved : Mem → ℕ → ℕ → ℕ → ℕ → ℕ
moved m d s len x = if leb d x && ltb x (d + len) then m (s + (x - d)) else m x

pub fill-at :
    (m : Mem) (ptr val len x : ℕ)
    → fill m ptr val len x ≡ (if leb ptr x && ltb x (ptr + len) then val % 256 else m x)
unfolding fill
fill-at m ptr val zero x = ground arith
fill-at m ptr val (suc len) x =
    ground (arith, fill-at (update m ptr (val % 256)) (ptr + 1) val len x)

-- Upwards, where the destination does not start within what is yet to be read.
pub copy_up-at :
    (m : Mem) (d s len x : ℕ) → (d ≤ s) ⊎ (s + len ≤ d) → copy_up m d s len x ≡ moved m d s len x
unfolding copy_up
copy_up-at m d s zero x h = ground arith
copy_up-at m d s (suc len) x h =
    let rest = copy_up-at (update m d (m s)) (d + 1) (s + 1) len x (omega arith) in
    elim (Bool-cases (x == d)) [
      | inl here ↦
          let e : x ≡ d = (==_iff x d).0 here in
          let first : m s ≡ m (s + (x - d)) = ap m (omega arith) in ground (arith, rest, first)
      | inr there ↦ elim (Bool-cases (ltb d x)) [
        | inl after ↦
            let e : s + 1 + (x - (d + 1)) ≡ s + (x - d) = ground arith in rest ∙ rw e (ground arith)
        | inr before ↦ rest ∙ ground arith
      ]
    ]

copy_down-at :
    (m : Mem) (d s len x : ℕ) → s ≤ d → copy_down m (d + len) (s + len) len x ≡ moved m d s len x
unfolding copy_down
copy_down-at m d s zero x h = ground arith
copy_down-at m d s (suc len) x h =
    let d_last : d + suc len - 1 ≡ d + len = omega arith in
    let s_last : s + suc len - 1 ≡ s + len = omega arith in
    let rest = copy_down-at (update m (d + len) (m (s + len))) d s len x h in
    rw (d_last, s_last)
      (rest ∙ (elim (Bool-cases (x == d + len)) [
        | inl last ↦
            let e : x ≡ d + len = (==_iff x (d + len)).0 last in
            let there : m (s + len) ≡ m (s + (x - d)) = ap m (omega arith) in ground (arith, there)
        | inr other ↦ ground arith
      ]))

-- Whether or not the two ranges overlap, `memmove` returns the destination, leaves in every byte of
-- it what the source's byte was before the call, and leaves every other byte as it was.
pub memmove-moved :
    (m : Mem) (dest src len x : ℕ)
    → ((memmove m dest src len).1 ≡ dest) × ((memmove m dest src len).0 x ≡ moved m dest src len x)
unfolding memmove
memmove-moved m dest src len x = elim (Bool-cases (dest == src)) [
  | inl same ↦ (
    rw same,
    let e : dest ≡ src = (==_iff dest src).0 same in
        rw same (elim (Bool-cases (leb dest x && ltb x (dest + len))) [
          | inl within ↦ rw within (ap m (ground arith))
          | inr outside ↦ rw outside refl
        ]),
  )
  | inr apart ↦ elim (Bool-cases (ltb dest src)) [
    | inl below ↦ rw (apart, below) (refl, copy_up-at m dest src len x (ground arith))
    | inr above ↦ rw (apart, above) (refl, copy_down-at m dest src len x (ground arith))
  ]
]
